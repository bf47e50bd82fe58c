-- ===== src/Lib.antt =====
-- The Monasca API server (Python), a REST front of a monitoring system: alarm definitions, alarms,
-- notification methods and metrics of tenants.
--
-- A request comes to a resource (monasca/v2/reference), which checks the roles and the query
-- parameters with the functions of monasca/v2/reference/helpers.py and calls a repository
-- (monasca/common/repositories). A repository reads and writes the tables of a MySQL database within
-- a transaction. `resource_try_catch_block` and `mysql_try_catch_block` translate what is raised on
-- the way back. An alarm definition has an expression, which the parser
-- (monasca/expression_parser) takes apart into sub expressions; the repository stores each as a sub
-- alarm definition (monasca/common/repositories/model), and an update compares the stored ones with
-- the new ones. A listing is given out in pages.
--
-- Which file models what:
--   Errors        the exceptions, and the blocks that translate them (exceptions.py, resource.py,
--                 mysql_repository.py); a function that may raise returns a Result, a method that
--                 changes the database is an Exec
--   Http          roles and tenants, and in Http/Query the query parameters (helpers.py)
--   Paging        links and pages (helpers.py, constants.py)
--   Database      the tables, each a list of rows, in the columns that the code names; an insertion
--                 of an alarm definition, with what belongs to it, into a table that holds its key
--                 raises IntegrityError, by the primary keys of alarm.sql in
--                 src/test/resources/monasca/api/infrastructure/persistence/mysql
--   Json          what the JSON parser makes of a body, and the tests of the schemas
--   Notifications notifications_repository.py, and in Notifications/Resource the requests of
--                 monasca/v2/reference/notifications.py
--   Expression    the classes SubExpr and BinaryOp of alarm_expr_parser.py
--   SubAlarm      sub_alarm_definition.py
--   AlarmDefinitions  alarm_definitions_repository.py: Queries (reads and deletion), Actions (of a
--                 definition), Keys, Create, Update, and Diff, which sorts the sub alarm definitions of
--                 an update; and monasca/v2/reference/alarm_definitions.py: Body (the schema and the
--                 functions that read a body), Events (what is sent), and Resource with its handlers
--   Alarms        alarms_repository.py (Alarms/Listing is `get_alarms`), and in Alarms/Views
--                 and Alarms/Resource monasca/v2/reference/alarms.py: the views, and the methods and
--                 handlers over the repositories
--   Messages      what is put on the message queues, and `send_event` of alarming.py
--   Alarming      the events of monasca/v2/reference/alarming.py, and in Alarming/Updates
--                 `_alarm_update` and `_alarm_delete` of alarms.py, over the database and two message queues
--   Kafka         monasca/common/messaging/kafka_publisher.py as a state machine over the kafka
--                 library, and in Kafka/Connection monasca/common/kafka_conn.py
--   Influx        monasca/common/repositories/influxdb/metrics_repository.py: Bytes (UTF-8), Quoting (of
--                 URLs), Words (the regular expressions), Series (decoding a serie's name), Queries,
--                 Metrics (`list_metrics`), Measurements (with the statistics) and History
--   Middleware    monasca/middleware/metric_validator.py
--   Formats       what monasca/common/messaging/message_formats makes of a posted body
--   Metrics       monasca/v2/reference/metrics.py: posting, and in Metrics/Reading the other requests
--   Prelude       helpers: lists, texts as byte strings, dicts as association lists, and the order
--                 of keys in SQL statements
--   Tests         the theorems at concrete inputs
--
-- Time and generated ids are arguments: `now` is the clock and `fresh n` the n-th generated id. The
-- order of the database's texts is an argument `lt`, of which some theorems take that it is a
-- strict total order (IsOrder; Prelude/Order/Texts shows one). `float_code` stands for the number
-- that `float` reads, `literal` for what the database driver writes for an object, `loads` for the
-- JSON parser, `parse` for the parser of expressions, `without_id` and `definitions` for `re.sub`
-- on a URI, `dumps` for a JSON printer, a Publisher for the client of a message queue, a Library
-- for the kafka client library, a Client for that of InfluxDB, and `utc` for the text of a time. A
-- dict is walked in the order of its entries, and a set in the order in which its elements came.
--
-- Every loop is a structural recursion over a list or a text, or over the number of retries in
-- Kafka. The only fuel in the model of the program is that of the digits of a number, the number
-- itself and one more, with which the digits read back as the number (Influx/Queries/Decimal);
-- `follow` and `list_all`, which stand for a client that asks for page after page, take as fuel the
-- number of pages that it may ask for, and more pages than rows are enough.
--
-- Not modelled: the grammar (pyparsing's work), a patch of an alarm definition with values of other
-- types than its schema has (no schema checks it), the events and transforms resources, the names
-- that the database holds which no text can hold (surrogates in UTF-8), the other middleware and
-- the start of the server, which pass their data on to libraries, the texts of log messages, and what
-- MySQL does to the texts it is given: the collation, by which texts in other letters may be the same
-- key, and the widths of the columns. Two texts are the same here if they are equal.
-- `lower` and `upper` map the ASCII letters only. The steps `encode` and `decode` of UTF-8 are
-- modelled in Influx, and left out elsewhere, where texts are ASCII; where the body of a notification
-- method is read, a text outside ASCII raises.
mod Prelude
pub mod Errors
pub mod Http
pub mod Paging
pub mod Json
pub mod Kafka
pub mod Database
pub mod Notifications
pub mod Expression
pub mod SubAlarm
pub mod AlarmDefinitions
pub mod Alarms
pub mod Messages
pub mod Alarming
pub mod Influx
pub mod Formats
pub mod Metrics
pub mod Middleware
mod Tests
