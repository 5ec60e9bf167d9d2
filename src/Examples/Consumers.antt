-- ===== src/Examples/Consumers.antt =====
-- The theorems on internal/kafka/consumer.go with a topic of a few messages.
use wb_l.Consumer.Spins.{consume_spins, OpenLaws, RetryLaws}
use wb_l.Consumer.Commits.{committed-Settled, KafkaLaws}
use wb_l.Consumer.Ends.{consume-stopped}
use wb_l.Base.Int.{pos}
use wb_l.DeadLetters.{new_queue, Bytes}
use wb_l.Models.{Order}
use wb_l.Base.Text.{codes, Text}
use wb_l.Consumer.Rounds.{letters_all, FetchLaws, Settled}
use wb_l.Base.Lists.{All}
use wb_l.Breaker.{Execute, BreakerLaws, Request}
use wb_l.DeadLetters.Issued.{new_queue-IsQueue}
use wb_l.Consumer.Accounts.{consume_lem}
use wb_l.Consumer.Processing.{ProcessorLaws, Added}
use wb_l.Consumer.Loop.{consume, Retry, LoopState}
use wb_l.Base.{
  ◌+◌, sym, ap, ◌∙◌, ◌⊎◌, arith, zero, [], ◌≡◌, ℕ, List, Option, refl, some, inr, none, false, true,
  ◌∷◌, inl, suc,
}
use wb_l.Consumer.{Decoded, Message, Processor, ProcessError, Readings, undecodable, decoded}
use wb_l.Examples.Services.{bounded, no_items}
use wb_l.Examples.Orders.{mascaras_order, moment}
use mathlib.Core.Option

-- No byte is no JSON, one byte is an order, and more are an order without items.
abbrev pub decode : Bytes → Decoded
decode [] = undecodable (codes "EOF")
decode (b ∷ []) = decoded mascaras_order
decode (b ∷ c ∷ bs) = decoded no_items

-- A processor that accepts some orders and then fails.
abbrev pub accepts : Processor ℕ ℕ
accepts ctx o zero = some (some (codes "full"), 0)
accepts ctx o (suc n) = some (none, n)

abbrev Anything : ℕ → Type 0
Anything n = Unit

accepts_returns :
    (ctx : ℕ) (o : Order) (p : ℕ)
    → Anything p
    → (err : Option Text) × (p' : ℕ) × (accepts ctx o p ≡ some (err, p')) × Anything p'
accepts_returns ctx o zero h = (some (codes "full"), 0, refl, tt)
accepts_returns ctx o (suc n) h = (none, n, refl, tt)

accepts-ProcessorLaws : ProcessorLaws accepts Anything
accepts-ProcessorLaws = record { returns = accepts_returns }

abbrev pub some_message : Message
some_message = record {
  topic = codes "orders";
  partition = pos 0;
  offset = pos 7;
  value = b'{' ∷ [];
}

abbrev pub fetch : ℕ → Request Message Text ℕ
fetch ctx zero = some (none, some (codes "timeout"), 0)
fetch ctx (suc k) = some (some some_message, none, k)

fetch_returns :
    (ctx : ℕ) (k : ℕ)
    → ((m : Message) × (k' : ℕ) × (fetch ctx k ≡ some (some m, none, k')))
      ⊎ ((m : Option Message) × (e : Text) × (k' : ℕ) × (fetch ctx k ≡ some (m, some e, k')))
fetch_returns ctx zero = inr (none, codes "timeout", 0, refl)
fetch_returns ctx (suc k) = inl (some_message, k, refl)

pub fetch-FetchLaws : FetchLaws fetch
fetch-FetchLaws = record { returns = fetch_returns }

-- A breaker that is always closed.
abbrev pub lets_through : Execute Message Text ℕ ℕ
lets_through request b k = Option.map (λ (o, err, k'). (o, err, b, k')) (request k)

lets_through-BreakerLaws : BreakerLaws lets_through
lets_through-BreakerLaws = record { either = λ request b k. inr (b, refl) }

abbrev pub commit : ℕ → Message → ℕ → Option Text × ℕ
commit ctx m k = (none, k)

abbrev pub tries_once : Retry ℕ ℕ
tries_once options ctx act k = act k

abbrev pub reading : Readings
reading = record {
  is_running = true;
  has_reader = true;
  now = moment;
  later = moment;
  first_id = moment;
  first_stamp = moment;
  second_id = moment;
  second_stamp = moment;
  is_done = false;
}

abbrev pub at_start : LoopState ℕ ℕ ℕ
at_start = record { queue = new_queue; breaker = 0; kafka = 2; orders = 1 }

consume_lem_example :
    (handled : List (Message × Option ProcessError)) × (s' : LoopState ℕ ℕ ℕ) × (consume decode
        accepts bounded lets_through fetch commit tries_once
        (codes "group")
        (reading ∷ reading ∷ [])
        1
        at_start
      ≡ some (handled, s'))
    × All (Settled decode accepts bounded 1 s'.queue) handled
    × Added (letters_all handled) 0 at_start.queue s'.queue
    × Anything s'.orders
consume_lem_example =
    consume_lem decode accepts-ProcessorLaws bounded lets_through-BreakerLaws fetch-FetchLaws commit
      tries_once (codes "group") (reading ∷ reading ∷ []) 1 0 at_start new_queue-IsQueue
      (omega arith) tt

abbrev number_text : ℕ → Text
number_text n = n ∷ []

-- The reading of a round that finds the consumer stopped.
abbrev stopped_reading : Readings
stopped_reading = record reading { is_running = false }

consume-stopped_example :
    consume decode accepts bounded lets_through fetch commit tries_once
      (codes "group")
      (reading ∷ stopped_reading ∷ reading ∷ [])
      1
      at_start
    ≡ consume decode accepts bounded lets_through fetch commit tries_once
        (codes "group")
        (reading ∷ [])
        1
        at_start
consume-stopped_example =
    consume-stopped decode accepts bounded lets_through fetch commit tries_once (codes "group")
      (reading ∷ []) (reading ∷ []) stopped_reading 1 at_start refl

-- A topic of a number of messages, and what was committed of it.
abbrev Topic : Type 0
Topic = ℕ × List Message

abbrev fetch_next : ℕ → Request Message Text Topic
fetch_next ctx (zero, done) = some (none, some (codes "timeout"), (0, done))
fetch_next ctx (suc k, done) = some (some some_message, none, (k, done))

fetch_next_returns :
    (ctx : ℕ) (k : Topic)
    → ((m : Message) × (k' : Topic) × (fetch_next ctx k ≡ some (some m, none, k')))
      ⊎ ((m : Option Message) × (e : Text) × (k' : Topic) × (fetch_next ctx k
            ≡ some (m, some e, k')))
fetch_next_returns ctx (zero, done) = inr (none, codes "timeout", (0, done), refl)
fetch_next_returns ctx (suc k, done) = inl (some_message, (k, done), refl)

abbrev commit_next : ℕ → Message → Topic → Option Text × Topic
commit_next ctx m (k, done) = (none, (k, m ∷ done))

abbrev try_once : Retry ℕ Topic
try_once options ctx act k = act k

abbrev let_through : Execute Message Text ℕ Topic
let_through request b k = Option.map (λ (o, err, k'). (o, err, b, k')) (request k)

abbrev committed_of : Option (Option Message × Option Text × Topic) → List Message
committed_of none = []
committed_of (some (o, err, k)) = k.1

fetch_next_commits : (ctx : ℕ) (k : Topic) → committed_of (fetch_next ctx k) ≡ k.1
fetch_next_commits ctx (zero, done) = refl
fetch_next_commits ctx (suc k, done) = refl

topic_laws : KafkaLaws fetch_next commit_next try_once (λ k. k.1)
topic_laws = record {
  fetched = λ ctx k k' m err e. sym (ap committed_of e) ∙ fetch_next_commits ctx k;
  committed = λ ctx m k. inr refl;
  retried = λ options ctx act k Good h step. step k h;
}

abbrev topic_start : LoopState ℕ Topic ℕ
topic_start = record { queue = new_queue; breaker = 0; kafka = (2, []); orders = 1 }

committed-Settled_example :
    (handled : List (Message × Option ProcessError)) × (s' : LoopState ℕ Topic ℕ) × (consume decode
        accepts bounded let_through fetch_next commit_next try_once
        (codes "group")
        (reading ∷ reading ∷ [])
        1
        topic_start
      ≡ some (handled, s'))
    × All
        (λ m. (err : Option ProcessError) × Settled decode accepts bounded 1 s'.queue (m, err))
        s'.kafka.1
committed-Settled_example =
    committed-Settled decode accepts-ProcessorLaws bounded
      (record { either = λ request b k. inr (b, refl) }) (record { returns = fetch_next_returns })
      (codes "group") topic_laws (reading ∷ reading ∷ []) 1 0 topic_start new_queue-IsQueue
      (omega arith) tt refl

-- A breaker that is always open.
abbrev rejects_all : Execute Message Text ℕ ℕ
rejects_all request b k = some (none, some (codes "circuit breaker is open"), b + 1, k)

rejects_all-OpenLaws : OpenLaws rejects_all Anything
rejects_all-OpenLaws = record {
  rejects = λ request b k is_open. (codes "circuit breaker is open", b + 1, refl, tt);
}

-- A retry that counts its calls.
abbrev counts_calls : Retry ℕ ℕ
counts_calls options ctx act k = let (err, k') = act k in (err, k' + 1)

counts_calls-RetryLaws : RetryLaws counts_calls Anything
counts_calls-RetryLaws = record {
  no_error = λ options ctx act k k' live done. ap (λ (x : Option Text × ℕ). x.0) done;
}

consume_spins_example :
    (b : ℕ) × (consume decode accepts bounded rejects_all fetch commit counts_calls
        (codes "group")
        (reading ∷ reading ∷ reading ∷ [])
        1
        at_start
      ≡ some ([], record at_start { breaker = b; kafka = 5 }))
    × Anything b
consume_spins_example =
    consume_spins decode accepts bounded rejects_all-OpenLaws fetch commit counts_calls-RetryLaws
      (codes "group") (reading ∷ reading ∷ reading ∷ []) 1 at_start tt tt
      ((refl, refl), ((refl, refl), ((refl, refl), tt)))
