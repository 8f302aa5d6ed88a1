-- ===== src/Events.antt =====
-- internal/events/producer.go and consumer.go. (Fetch and Commit hand their call on to the reader:
-- `Consumer` of Worker/Pool.)
use pulse_notify.Prelude.{pos, true, Option, none, some, List, Text, codes}
use pulse_notify.Process.{WriterConfig, ReaderConfig}
use pulse_notify.Errors.{Error, wrapped, ok, err}
use pulse_notify.Model.{NotificationEvent}
use pulse_notify.External.{Codec, KafkaWriter, NotificationProducer}

abbrev pub wrap_write : Option Error → Option Error
wrap_write none = none
wrap_write (some e) = some (wrapped (codes "write kafka message") e)

-- (p *Producer) Publish: the event's user is the partition key.
unfoldable pub publish :
    {W : Type 0} → Codec NotificationEvent → KafkaWriter W → NotificationProducer W
publish codec writer evt w = elim (codec.marshal evt) [
  | err e ↦ (some (wrapped (codes "marshal event") e), w)
  | ok payload ↦
      let (e, w1) = writer (record { key = evt.user_id; value = payload; offset = pos 0 }) w in
      (wrap_write e, w1)
]

-- NewProducer
abbrev pub new_producer : List Text → Text → WriterConfig
new_producer brokers topic = record {
  addr = brokers;
  topic = topic;
  require_all_acks = true;
  allow_auto_topic_creation = true;
  batch_timeout = pos 50000000;
}

-- NewConsumer: a commit interval of 0 commits at each call.
abbrev pub new_consumer : List Text → Text → Text → ReaderConfig
new_consumer brokers topic group_id = record {
  brokers = brokers;
  topic = topic;
  group_id = group_id;
  min_bytes = pos 1;
  max_bytes = pos 10000000;
  commit_interval = pos 0;
  max_wait = pos 500000000;
}
