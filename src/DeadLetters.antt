-- ===== src/DeadLetters.antt =====
-- src/common/utils/dead-letter-queue.util.js, the class DeadLetterQueue. The Map of messages is the list
-- of its values, in the order of insertion. The clock and the random number of a call are parameters:
-- `random` stands for the number random / 2 ^ 53.
pub mod Stats
pub mod Redrive
pub mod Kept
pub mod Valid
pub mod Reach
pub mod Redriven
mod Tests
use leave_ledger.Common.{
  ℕ, zero, suc, ◌+◌, ◌-◌, ◌*◌, ◌/◌, ◌^◌, min, Bool, true, false, not, ◌||◌, Option, none, some,
  List, [], ◌∷◌, ◌++◌, String, first, keep, put, length, leb, ltb, if◌then◌else◌,
}
use leave_ledger.Common.Eq.{◌==◌, String-Eq}

-- `x || y` on option values, where 0 and the empty string are falsy.
abbrev pub or_default : Option ℕ → ℕ → ℕ
or_default none y = y
or_default (some zero) y = y
or_default (some (suc n)) y = suc n

abbrev pub or_text : Option String → String → String
or_text none y = y
or_text (some x) y = if x == "" then y else x

pub record Config : Type 0 where
  pub max_retries : ℕ
  pub base_backoff : ℕ
  pub max_backoff : ℕ
  pub max_capacity : ℕ

pub record Options : Type 0 where
  pub max_retries : Option ℕ
  pub base_backoff : Option ℕ
  pub max_backoff : Option ℕ
  pub max_capacity : Option ℕ

unfoldable pub configure : Options → Config
configure o = record {
  max_retries = or_default o.max_retries 3;
  base_backoff = or_default o.base_backoff 100;
  max_backoff = or_default o.max_backoff 5000;
  max_capacity = or_default o.max_capacity 1000;
}

-- A thrown value: its fields `code`, `name` and `message`, and its text.
pub record Failure : Type 0 where
  pub code : Option String
  pub name : Option String
  pub message : Option String
  pub text : String

pub record ErrorEntry : Type 0 where
  pub category : String
  pub message : String
  pub timestamp : ℕ

abbrev pub error_category : Option Failure → String
error_category none = "UNKNOWN_ERROR"
error_category (some e) = or_text e.code (or_text e.name "UNKNOWN_ERROR")

abbrev pub error_message : Option Failure → String
error_message none = "Unspecified error"
error_message (some e) = or_text e.message e.text

pub record Letter {ℓ} (Payload : Type ℓ) : Type ℓ where
  pub id : String
  pub channel : String
  pub payload : Payload
  pub attempts : ℕ
  pub initial_error : ErrorEntry
  pub last_error : ErrorEntry
  pub created_at : ℕ
  pub updated_at : ℕ
  pub is_poison : Bool
  pub next_retry_at : ℕ
  pub redrive_count : ℕ

pub record Letters {ℓ} (Payload : Type ℓ) : Type ℓ where
  pub messages : List (Letter Payload)
  -- `_errorTaxonomy`
  pub taxonomy : List (String × ℕ)
  pub total_enqueued : ℕ
  pub total_redriven : ℕ
  pub total_evicted : ℕ

-- The argument of enqueue, and what it reads of its surroundings.
pub record Item {ℓ} (Payload : Type ℓ) : Type ℓ where
  pub id : String
  pub channel : String
  pub payload : Payload
  pub error : Option Failure

pub record Moment : Type 0 where
  pub now : ℕ
  pub random : ℕ

-- `taxonomy.set(category, (taxonomy.get(category) || 0) + 1)`
abbrev pub count_error : String → List (String × ℕ) → List (String × ℕ)
count_error category [] = (category, 1) ∷ []
count_error category (x ∷ xs) =
    if x.0 == category then (x.0, x.1 + 1) ∷ xs else x ∷ count_error category xs

abbrev pub tail {ℓ} : {A : Type ℓ} → List A → List A
tail [] = []
tail (x ∷ xs) = xs

abbrev pub new_letters {ℓ} : {Payload : Type ℓ} → Letters Payload
new_letters = record {
  messages = [];
  taxonomy = [];
  total_enqueued = 0;
  total_redriven = 0;
  total_evicted = 0;
}

-- _calculateNextRetry
unfoldable pub calculate_next_retry : Config → Moment → ℕ → ℕ
calculate_next_retry c t attempt =
    let delay = min (c.base_backoff * 2 ^ min attempt 10) c.max_backoff in
    t.now + (delay + delay * t.random / (5 * 2 ^ 53))

module _ {ℓ} {Payload : Type ℓ} where
  abbrev pub has_id : String → Letter Payload → Bool
  has_id id r = r.id == id

  -- canRetry
  abbrev pub is_eligible : ℕ → Letter Payload → Bool
  is_eligible now r = if r.is_poison then false else leb r.next_retry_at now

  unfoldable pub can_retry : String → ℕ → Letters Payload → Bool
  can_retry id now d = elim (first (has_id id) d.messages) [
    | none ↦ false
    | some r ↦ is_eligible now r
  ]

  -- `_messages.delete(id)`
  abbrev pub without : String → List (Letter Payload) → List (Letter Payload)
  without id = keep (λ r. not (has_id id r))

  -- get, delete and clear
  abbrev pub get : String → Letters Payload → Option (Letter Payload)
  get id d = first (has_id id) d.messages

  unfoldable pub delete : String → Letters Payload → Letters Payload
  delete id d = record d { messages = without id d.messages }

  unfoldable pub clear : Letters Payload → Letters Payload
  clear d = record d { messages = []; taxonomy = [] }

module _ {ℓ} {Payload : Type ℓ} (c : Config) where
  -- The record of an id that is in the queue already.
  abbrev pub again : Item Payload → Moment → Letter Payload → Letter Payload
  again item t r = record r {
    attempts = r.attempts + 1;
    last_error = record {
      category = error_category item.error;
      message = error_message item.error;
      timestamp = t.now;
    };
    updated_at = t.now;
    is_poison = leb c.max_retries (r.attempts + 1);
    next_retry_at = calculate_next_retry c t (r.attempts + 1);
  }

  abbrev pub fresh : Item Payload → Moment → Letter Payload
  fresh item t =
      let error : ErrorEntry = record {
        category = error_category item.error;
        message = error_message item.error;
        timestamp = t.now;
      } in
      record {
        id = item.id;
        channel = item.channel;
        payload = item.payload;
        attempts = 1;
        initial_error = error;
        last_error = error;
        created_at = t.now;
        updated_at = t.now;
        is_poison = leb c.max_retries 1;
        next_retry_at = calculate_next_retry c t 1;
        redrive_count = 0;
      }

  -- The eviction of the oldest record.
  abbrev pub evict : Letters Payload → Letters Payload
  evict d =
      if leb c.max_capacity (length d.messages)
      then record d { messages = tail d.messages; total_evicted = d.total_evicted + 1 }
      else d

  -- The counters at the end of enqueue.
  abbrev pub count_enqueued : Option Failure → Letters Payload → Letters Payload
  count_enqueued error d = record d {
    total_enqueued = d.total_enqueued + 1;
    taxonomy = count_error (error_category error) d.taxonomy;
  }

  abbrev pub enqueue_valid :
      Item Payload → Moment → Letters Payload → Letter Payload × Letters Payload
  enqueue_valid item t d = elim (first (has_id item.id) d.messages) [
    | some r ↦ (
      again item t r,
      count_enqueued item.error
          (record d { messages = put (has_id item.id) (again item t r) d.messages }),
    )
    | none ↦ (
      fresh item t,
      count_enqueued item.error
          (record (evict d) { messages = (evict d).messages ++ fresh item t ∷ [] }),
    )
  ]

  -- enqueue; `none` is the TypeError of an empty id or channel.
  unfoldable pub enqueue :
      Item Payload → Moment → Letters Payload → Option (Letter Payload) × Letters Payload
  enqueue item t d =
      if (item.id == "") || (item.channel == "")
      then (none, d)
      else let (r, d') = enqueue_valid item t d in (some r, d')
