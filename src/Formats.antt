-- ===== src/Formats.antt =====
-- What becomes of a posted body before it is sent, by the format of the configuration:
-- monasca/common/messaging/message_formats. The format "reference" calls `datetime.now` of the module
-- `datetime`, which has no such name, and the format "cadf" calls `NotImplemented`, which is no
-- function; any other name leaves the body as it is.
use monasca_api.Prelude.{String, seq, if◌then◌else◌}
use monasca_api.Errors.{Result, ok, err, python}
use monasca_api.Json.{Json}

-- `create_metrics_transform`, and the transform that it returns
unfoldable pub metrics_transform : String → Json → Result Json
metrics_transform format metrics =
    if seq format "reference"
    then err (python "AttributeError")
    else if seq format "cadf"
    then err (python "TypeError")
    else ok metrics

-- `create_events_transform`, and the transform that it returns
unfoldable pub events_transform : String → Json → Result Json
events_transform format event =
    if seq format "reference"
    then err (python "AttributeError")
    else if seq format "cadf"
    then err (python "TypeError")
    else ok event
