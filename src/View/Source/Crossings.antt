-- ===== src/View/Source/Crossings.antt =====
-- The message at which a budget is reached.
use mathlib.Core.List.{append_assoc, append-nil}
use long_horizon_context.Base.{
  ℕ, ◌+◌, ◌*◌, ◌≤◌, ◌<◌, ◌≡◌, refl, sym, subst, ap, ◌∙◌, ◌⊎◌, inl, inr, Bool-cases, Option, none,
  some, List, [], ◌∷◌, ◌++◌, arith, leb,
}
use long_horizon_context.View.{SelectionMessage}
use long_horizon_context.View.Source.{
  Crossed, reverse_onto, estimates_of, crossing_from, crossing_message,
}

estimates_of-append :
    (xs ys : List SelectionMessage) → estimates_of (xs ++ ys) ≡ estimates_of xs + estimates_of ys
estimates_of-append [] ys = omega arith
estimates_of-append (x ∷ xs) ys = omega (arith, estimates_of-append xs ys)

reverse_onto-append :
    (xs acc : List SelectionMessage) → reverse_onto xs acc ≡ reverse_onto xs [] ++ acc
reverse_onto-append [] acc = refl
reverse_onto-append (x ∷ xs) acc =
    reverse_onto-append xs (x ∷ acc)
    ∙ sym (append_assoc (reverse_onto xs []) (x ∷ []) acc)
    ∙ ap (λ l. l ++ acc) (sym (reverse_onto-append xs (x ∷ [])))

reverse_onto_twice :
    (xs acc back : List SelectionMessage)
    → reverse_onto (reverse_onto xs acc) back ≡ reverse_onto acc (xs ++ back)
reverse_onto_twice [] acc back = refl
reverse_onto_twice (x ∷ xs) acc back = reverse_onto_twice xs (x ∷ acc) back

-- Where the budget is reached, a message parts the list: those after it do not reach the budget, or
-- there are none, and with it they do.
pub record IsReached (messages : List SelectionMessage) (budget : ℕ) (crossed : Crossed)
    : Type 0 where
  pub older : List SelectionMessage
  pub at : SelectionMessage
  pub newer : List SelectionMessage
  pub parted : messages ≡ older ++ (at ∷ newer)
  pub named : crossed ≡ record { order = at.order; turn_id = at.turn_id }
  pub short : (newer ≡ []) ⊎ (100 * estimates_of newer < budget)
  pub reached : budget ≤ 100 * estimates_of (at ∷ newer)

abbrev pub IsCrossing : List SelectionMessage → ℕ → Option Crossed → Type 0
IsCrossing messages budget none = (messages ≡ []) ⊎ (100 * estimates_of messages < budget)
IsCrossing messages budget (some crossed) = IsReached messages budget crossed

crossing_from-IsCrossing :
    (budget : ℕ) (older newer : List SelectionMessage) (sum : ℕ)
    → sum ≡ estimates_of newer
    → (newer ≡ []) ⊎ (100 * estimates_of newer < budget)
    → IsCrossing (reverse_onto older newer) budget (crossing_from budget older sum)
unfolding crossing_from
crossing_from-IsCrossing budget [] newer sum e h = h
crossing_from-IsCrossing budget (m ∷ older) newer sum e h =
    elim (Bool-cases (leb budget (100 * (sum + m.token_estimate)))) [
      | inl t ↦ rw t (record {
        older = reverse_onto older [];
        at = m;
        newer = newer;
        parted = reverse_onto-append older (m ∷ newer);
        named = refl;
        short = h;
        reached = ground (arith, t, e);
      })
      | inr t ↦ rw t (
          crossing_from-IsCrossing budget older (m ∷ newer) (sum + m.token_estimate)
            (omega (arith, e)) (inr (ground (arith, t, e))))
    ]

-- The message that `crossingMessage` names is the newest from which on the messages reach the
-- budget; where none is named, the messages together do not reach it, or there are none.
pub crossing_message-IsCrossing :
    (messages : List SelectionMessage) (budget : ℕ)
    → IsCrossing messages budget (crossing_message messages budget)
unfolding crossing_message
crossing_message-IsCrossing messages budget =
    subst (λ l. IsCrossing l budget (crossing_from budget (reverse_onto messages []) 0))
      (reverse_onto_twice messages [] [] ∙ append-nil messages)
      (crossing_from-IsCrossing budget (reverse_onto messages []) [] 0 refl (inl refl))
