-- ===== src/Tests/Topics.antt =====
-- A topic and its first message on the sample chain.
use hanvil.Prelude.{ℕ, ◌≡◌, refl, arith, some, none, codes}
use hanvil.Prelude.Result.{ok}
use hanvil.Maps.BTreeMap
use hanvil.Time.{at_secs}
use hanvil.Records.{Record, Topic}
use hanvil.Chain.{ChainState, allocate_id}
use hanvil.Chain.Apply.{blank_record, new_topic, apply_submit, apply_create_topic, with_message}
use hanvil.Chain.Apply.Topics.{AreChained, apply_create_topic-AreChained, apply_submit-AreChained}
use hanvil.Tests.Samples.{machine, town, payment}

town-AreChained : AreChained machine town
unfolding BTreeMap.get
town-AreChained i t found = cc

abbrev blank : Record
blank = blank_record payment (at_secs 1_006 0)

abbrev forum : ChainState ℕ
forum = (apply_create_topic (codes "forum") none none 0 none town blank (at_secs 1_006 0)).0

abbrev first_topic : Topic
first_topic = new_topic 1004 (codes "forum") none none 0 none (at_secs 1_006 0)

topic_found : BTreeMap.get 1004 forum.topics ≡ some first_topic
unfolding apply_create_topic allocate_id BTreeMap.get BTreeMap.insert
topic_found = refl

abbrev greeted : ChainState ℕ × Record
greeted =
    let t = with_message machine first_topic 1004 1002 (at_secs 1_007 0) (codes "hi") in
    (
      record forum { topics = BTreeMap.insert 1004 t forum.topics },
      record blank {
        topic_sequence_number = t.sequence_number;
        topic_running_hash = t.running_hash;
      },
    )

greets : apply_submit machine 1004 (codes "hi") forum blank (at_secs 1_007 0) ≡ ok greeted
unfolding apply_submit apply_create_topic allocate_id BTreeMap.get BTreeMap.insert blank_record
greets = refl

-- The first message has number 1.
greeted_number : greeted.1.topic_sequence_number ≡ 1
unfolding with_message
greeted_number = refl

forum-AreChained : AreChained machine forum
forum-AreChained =
    apply_create_topic-AreChained machine (codes "forum") none none 0 none town blank
      (at_secs 1_006 0) town-AreChained

apply_submit-AreChained_example : AreChained machine greeted.0
apply_submit-AreChained_example =
    apply_submit-AreChained machine 1004 (codes "hi") forum blank (at_secs 1_007 0) first_topic
      greeted forum-AreChained topic_found (omega arith) greets
