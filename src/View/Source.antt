-- ===== src/View/Source.antt =====
-- `eagerSelectionSource` of thread-view/internal/select.ts, and the part of the interface
-- `SelectionSource` of thread-view/internal/walk.ts that the compact point is computed from.
pub mod Crossings
use long_horizon_context.Base.{
  ℕ, ◌+◌, ◌*◌, String, Bool, true, false, not, Option, none, some, List, [], ◌∷◌, ◌++◌, map, min,
  filter, ltb, leb, if◌then◌else◌, str_eq,
}
use long_horizon_context.View.{SelectionMessage, SelectionTurn, SelectionChunk}

pub record Crossed : Type 0 where
  pub order : ℕ
  pub turn_id : String

pub record SelectionSource : Type 0 where
  pub turns : List SelectionTurn
  pub chunks : List SelectionChunk
  pub has_placeable_messages : Bool
  pub crossing_message : ℕ → Option Crossed
  pub turn_min_message_order : String → Option ℕ
  pub turn_message_tokens : String → ℕ
  pub message_tokens_after : ℕ → ℕ
  pub turn_excerpt : String → Option (List String)

abbrev pub reverse_onto {ℓ} : {A : Type ℓ} → List A → List A → List A
reverse_onto [] acc = acc
reverse_onto (x ∷ xs) acc = reverse_onto xs (x ∷ acc)

abbrev pub estimates_of : List SelectionMessage → ℕ
estimates_of [] = 0
estimates_of (m ∷ messages) = m.token_estimate + estimates_of messages

-- The loop of `crossingMessage`, on the messages from the newest on.
unfoldable pub crossing_from : ℕ → List SelectionMessage → ℕ → Option Crossed
crossing_from budget [] sum = none
crossing_from budget (m ∷ older) sum =
    let rest = crossing_from budget older (sum + m.token_estimate) in
    if leb budget (100 * (sum + m.token_estimate))
    then some (record { order = m.order; turn_id = m.turn_id })
    else rest

-- `crossingMessage`
unfoldable pub crossing_message : List SelectionMessage → ℕ → Option Crossed
unfolding crossing_from
crossing_message messages budget = crossing_from budget (reverse_onto messages []) 0

abbrev pub turn_messages : List SelectionMessage → String → List SelectionMessage
turn_messages messages turn_id = filter (λ m. str_eq m.turn_id turn_id) messages

abbrev pub least : List ℕ → Option ℕ
least [] = none
least (n ∷ ns) = elim (least ns) [ none ↦ some n | some m ↦ some (min n m) ]

-- The texts that `turnExcerpt` joins with a line break.
abbrev pub excerpt : List SelectionMessage → Option (List String)
excerpt [] = none
excerpt (m ∷ messages) = some (map (λ m. m.text) (m ∷ messages))

abbrev pub has_any : List SelectionMessage → Bool
has_any [] = false
has_any (_ ∷ _) = true

unfoldable pub eager_selection_source :
    List SelectionMessage → List SelectionTurn → List SelectionChunk → SelectionSource
unfolding crossing_message
eager_selection_source messages turns chunks = record {
  turns = turns;
  chunks = chunks;
  has_placeable_messages = has_any messages;
  crossing_message = crossing_message messages;
  turn_min_message_order = λ turn_id. least (map (λ m. m.order) (turn_messages messages turn_id));
  turn_message_tokens = λ turn_id. estimates_of (turn_messages messages turn_id);
  message_tokens_after = λ order. estimates_of (filter (λ m. ltb order m.order) messages);
  turn_excerpt = λ turn_id. excerpt (turn_messages messages turn_id);
}
