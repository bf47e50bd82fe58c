-- ===== src/AlarmDefinitions/Events/Created.antt =====
-- The event of a creation can be built where the creation can be written.
use monasca_api.Prelude.{◌≡◌, ℕ, suc, String, List, [], ◌∷◌, some, All, Dict, split, put}
use monasca_api.Errors.{Result, ok}
use monasca_api.Errors.Outcomes.{Yields, Yields-bind, Yields-returns}
use monasca_api.Expression.{SubExpr, dimensions_as_list}
use monasca_api.Alarms.Views.{put_dimensions}
use monasca_api.AlarmDefinitions.Create.{parsed_dimension}
use monasca_api.AlarmDefinitions.Create.RoundTrip.{IsWritable}
use monasca_api.AlarmDefinitions.Create.Dimensions.{Parses}
use monasca_api.AlarmDefinitions.Create.Numbered.{numbered}
use monasca_api.AlarmDefinitions.Update.{text_or_null}
use monasca_api.AlarmDefinitions.Events.{created_sub_message, created_sub_messages, created_message}
use monasca_api.Messages.{Message, SubAlarmMessage}

abbrev pub Returns : {A : Type 0} → Result A → Type 0
Returns r = Yields (λ _. Unit {0}) r

put_dimensions-Returns :
    (acc : Dict String) (ds : List String) → All Parses ds → Returns (put_dimensions acc ds)
unfolding put_dimensions
put_dimensions-Returns acc [] h = tt
put_dimensions-Returns acc (d ∷ ds) (p, h) =
    Yields-bind (λ _. Unit {0}) (λ _. Unit {0}) (parsed_dimension (split b'=' d)) _ p
      λ pair _. put_dimensions-Returns (put pair.0 pair.1 acc) ds h

created_sub_message-Returns :
    (e : SubExpr) → All Parses (dimensions_as_list e) → Returns (created_sub_message e)
unfolding created_sub_message
created_sub_message-Returns e h =
    Yields-bind (λ _. Unit {0}) (λ _. Unit {0}) (put_dimensions [] (dimensions_as_list e)) _
      (put_dimensions-Returns [] (dimensions_as_list e) h) λ d _. tt

created_sub_messages-Returns :
    (now : ℕ) (fresh : ℕ → String) (n : ℕ) (acc : Dict SubAlarmMessage) (es : List SubExpr)
    → All IsWritable es
    → Returns (created_sub_messages acc (numbered now fresh n es))
unfolding created_sub_messages
created_sub_messages-Returns now fresh n acc [] h = tt
created_sub_messages-Returns now fresh n acc (e ∷ es) ((o, ds, _), h) =
    let e' : SubExpr = record e { id = some (fresh n) } in
    Yields-bind (λ _. Unit {0}) (λ _. Unit {0}) (created_sub_message e') _
      (created_sub_message-Returns e' ds)
      λ m _. created_sub_messages-Returns now fresh (suc n) (put (text_or_null e'.id) m acc) es h

module _ (now : ℕ) (fresh : ℕ → String) (tenant_id id name expression description : String)
    (es : List SubExpr) (match_by : List String) where
  abbrev pub message : Result Message
  message =
      created_message tenant_id id name expression (numbered now fresh 1 es) description match_by

  message-Returns : All IsWritable es → Returns message
  unfolding created_message
  message-Returns h =
      Yields-bind (λ _. Unit {0}) (λ _. Unit {0})
        (created_sub_messages [] (numbered now fresh 1 es)) _
        (created_sub_messages-Returns now fresh 1 [] es h) λ messages _. tt

  pub created_message-Returns : All IsWritable es → (m : Message) × (message ≡ ok m)
  created_message-Returns h =
      let (m, built, _) = Yields-returns (λ _. Unit {0}) message (message-Returns h) in (m, built)
