-- ===== src/Cloud.antt =====
-- The sinks of provenex/export/aws.py, gcp.py and kafka.py over clients that are parameters. The
-- clock's hour is an argument.
pub mod Attributes
mod Tests
use provenex_core.Prelude.{
  ℕ, String, ◌-◌, ◌+◌, Bool, true, false, Option, none, some, List, [], ◌∷◌, ◌++◌, map, zero, suc,
  length, if◌then◌else◌, ◌==◌, nat_eq, list_eq, Result, ok, err, ◌>>=◌, is_ok, sink_closed_error,
  key_error, attribute_error,
}
use provenex_core.Text.{Text, codes, decimal, utf8}
use provenex_core.Value.{
  Value, null, text, dict, Fields, end, field, Key, get, to_fields, entries, entry_of, or_null,
}
use provenex_core.Streaming.{Published, raised, returned, and_then}
use provenex_core.Ocsf.{Host, read, fields_of, truth, format}

-- What a sink reads of a receipt or of a carrier: `receipt_id`, `to_json(indent=None)`, `to_dict()`.
pub record CloudReceipt : Type 0 where
  pub receipt_id : Text
  pub json : Text
  pub fields : Fields

pub record SqsSink {ℓ} (Client : Type ℓ) : Type ℓ where
  pub queue_url : Text
  pub client : Client
  pub attrs : Fields
  pub closed : Bool

-- One object of S3, as `put_object` is given it.
pub record S3Object : Type 0 where
  pub bucket : Text
  pub object_key : Text
  pub body : List ℕ
  pub content_type : Text

pub record S3AppendSink {ℓ} (Client : Type ℓ) : Type ℓ where
  pub bucket : Text
  pub prefix : Text
  pub client : Client
  pub closed : Bool

-- The hour of `datetime.now(timezone.utc)`.
pub record Hour : Type 0 where
  pub year : ℕ
  pub month : ℕ
  pub day : ℕ
  pub hour : ℕ

pub record PubSubSink {ℓ} (Client : Type ℓ) : Type ℓ where
  pub publisher : Client
  pub topic_path : Text
  pub wait : Bool
  pub closed : Bool

-- A future's answer may raise what the broker refused.
pub record PubSubClient {ℓ} (Client : Type ℓ) : Type ℓ where
  pub send : Client → Text → List ℕ → Fields → Published Client
  pub wait_result : Client → Published Client

pub record KafkaSink {ℓ} (Client : Type ℓ) : Type ℓ where
  pub producer : Client
  pub topic : Text
  pub key_field : Text
  pub closed : Bool

pub record KafkaClient {ℓ} (Client : Type ℓ) : Type ℓ where
  pub send : Client → Text → Value → Text → Published Client
  pub wait_result : Client → Published Client
  pub flush : Client → Published Client
  pub close_producer : Client → Published Client

abbrev string_attribute : Key × Value → Key × Value
string_attribute (k, v) = (
  k,
  dict (to_fields (entry_of "DataType" (text (codes "String")) ∷ entry_of "StringValue" v ∷ [])),
)

-- s.strip("/")
abbrev drop_slashes : Text → Text
drop_slashes [] = []
drop_slashes (c ∷ s) = let rest = drop_slashes s in if c == 47 then rest else c ∷ s

abbrev strip_end : Text → Text
strip_end [] = []
strip_end (c ∷ s) =
    let rest = strip_end s in if c == 47 then (if rest == [] then [] else c ∷ rest) else c ∷ rest

abbrev strip_slashes : Text → Text
strip_slashes s = strip_end (drop_slashes s)

abbrev zeros : ℕ → Text
zeros zero = []
zeros (suc n) = 48 ∷ zeros n

-- f"{n:0{width}d}"
abbrev padded : ℕ → ℕ → Text
padded width n = let s = decimal n in zeros (width - length s) ++ s

abbrev receipt_key : Text → Hour → Text → Text
receipt_key prefix now receipt_id =
    prefix
    ++ 47 ∷ []
    ++ padded 4 now.year
    ++ 47 ∷ []
    ++ padded 2 now.month
    ++ 47 ∷ []
    ++ padded 2 now.day
    ++ 47 ∷ []
    ++ padded 2 now.hour
    ++ 47 ∷ []
    ++ receipt_id
    ++ codes ".json"

-- The keyword arguments that PubSubSink adds to a message.
abbrev caller_attribute : Host → Fields → List (Key × Value)
caller_attribute h fs = elim (get (codes "caller_hash") fs) [
  | none ↦ []
  | some v ↦ entry_of "caller_hash" (text (format h v)) ∷ []
]

abbrev text_or : Host → Option Value → Text
text_or h none = []
text_or h (some v) = format h v

abbrev step_attribute : Host → Value → List (Key × Value)
step_attribute h v = if truth h v then entry_of "step_kind" (text (format h v)) ∷ [] else []

abbrev trajectory_attributes : Host → Value → Result (List (Key × Value))
trajectory_attributes h v =
    if truth h v
    then (do
      fs ← fields_of v
      ok (
          entry_of "trajectory_id" (text (text_or h (get (codes "trajectory_id") fs))) ∷ []
          ++ step_attribute h (read "step_kind" fs)))
    else ok []

abbrev required : Option Value → Result Value
required none = err key_error
required (some v) = ok v

unfoldable pub pubsub_attributes : Host → Fields → Result Fields
pubsub_attributes h fs = do
  id ← required (get (codes "receipt_id") fs)
  of_trajectory ← trajectory_attributes h (read "trajectory" fs)
  ok (
      to_fields
        (entry_of "receipt_id" (text (format h id)) ∷ [] ++ caller_attribute h fs ++ of_trajectory))

module _ {ℓ} {Client : Type ℓ} where
  unfoldable pub sqs_create : Client → Text → Fields → SqsSink Client
  sqs_create client queue_url message_attributes = record {
    queue_url = queue_url;
    client = client;
    attrs = to_fields (map string_attribute (entries message_attributes));
    closed = false;
  }

  abbrev sqs_arguments : SqsSink Client → Text → Fields
  sqs_arguments s body = to_fields (
      entry_of "QueueUrl" (text s.queue_url) ∷ entry_of "MessageBody" (text body) ∷ []
      ++ elim s.attrs [ end ↦ [] | _ ↦ entry_of "MessageAttributes" (dict s.attrs) ∷ [] ])

  unfoldable pub sqs_publish :
      (Client → Fields → Published Client)
      → SqsSink Client
      → CloudReceipt
      → Published (SqsSink Client)
  sqs_publish send_message s receipt =
      if s.closed
      then raised sink_closed_error s
      else let p = send_message s.client (sqs_arguments s receipt.json) in
        record { result = p.result; state = record s { client = p.state } }

  unfoldable pub sqs_close : SqsSink Client → SqsSink Client
  sqs_close s = record s { closed = true }

  unfoldable pub s3_create : Client → Text → Text → S3AppendSink Client
  s3_create client bucket prefix = record {
    bucket = bucket;
    prefix = strip_slashes prefix;
    client = client;
    closed = false;
  }

  unfoldable pub s3_publish :
      (Client → S3Object → Published Client)
      → S3AppendSink Client
      → Hour
      → CloudReceipt
      → Published (S3AppendSink Client)
  s3_publish put_object s now receipt =
      if s.closed
      then raised sink_closed_error s
      else let p = put_object s.client (record {
        bucket = s.bucket;
        object_key = receipt_key s.prefix now receipt.receipt_id;
        body = utf8 receipt.json;
        content_type = codes "application/json";
      }) in
        record { result = p.result; state = record s { client = p.state } }

  unfoldable pub s3_close : S3AppendSink Client → S3AppendSink Client
  s3_close s = record s { closed = true }

  module _ (api : PubSubClient Client) (h : Host) where
    abbrev pubsub_send : PubSubSink Client → CloudReceipt → Fields → Published Client
    pubsub_send s receipt attrs =
        let p = api.send s.publisher s.topic_path (utf8 receipt.json) attrs in
        if s.wait then and_then p api.wait_result else p

    unfoldable pub pubsub_publish : PubSubSink Client → CloudReceipt → Published (PubSubSink Client)
    unfolding pubsub_attributes
    pubsub_publish s receipt =
        if s.closed then raised sink_closed_error s else elim (pubsub_attributes h receipt.fields) [
          | err e ↦ raised e s
          | ok attrs ↦
              let p = pubsub_send s receipt attrs in
              record { result = p.result; state = record s { publisher = p.state } }
        ]

  unfoldable pub pubsub_close : PubSubSink Client → PubSubSink Client
  pubsub_close s = record s { closed = true }

  module _ (api : KafkaClient Client) (h : Host) where
    abbrev message_key : Text → Fields → Value
    message_key key_field fs =
        let v = or_null (get key_field fs) in if truth h v then v else read "receipt_id" fs

    unfoldable pub kafka_publish : KafkaSink Client → CloudReceipt → Published (KafkaSink Client)
    kafka_publish s receipt =
        if s.closed
        then raised sink_closed_error s
        else let p =
            and_then
              (api.send s.producer s.topic (message_key s.key_field receipt.fields) receipt.json)
              api.wait_result in
          record { result = p.result; state = record s { producer = p.state } }

    -- `try: flush() finally: close()`; a close that raises leaves the sink open.
    unfoldable pub kafka_close : KafkaSink Client → Published (KafkaSink Client)
    kafka_close s =
        if s.closed
        then returned s
        else let flushed = api.flush s.producer in
          let p = api.close_producer flushed.state in
          if is_ok p.result
          then record {
            result = flushed.result;
            state = record s { producer = p.state; closed = true };
          }
          else record { result = p.result; state = record s { producer = p.state } }
