-- ===== src/View.antt =====
-- The data of thread-view/internal/select.ts: turns, chunks, messages and the entries of a view.
pub mod Bands
pub mod Source
pub mod Point
pub mod Structure
pub mod Preview
pub mod Parts
use long_horizon_context.Base.{ℕ, ◌+◌, String, Bool, Option, List, [], ◌∷◌}

pub data Status : Type 0 where
  open_status closed_status : Status

pub data Band : Type 0 where
  brief detailed smooth : Band

pub data SubjectKind : Type 0 where
  turn chunk : SubjectKind

pub record SelectionMessage : Type 0 where
  pub message_id : String
  pub order : ℕ
  pub kind : String
  pub token_estimate : ℕ
  pub turn_id : String
  pub text : String

pub record SelectionTurn : Type 0 where
  pub turn_id : String
  pub turn_order : ℕ
  pub status : Status
  pub opened_at : ℕ
  pub closed_at : Option ℕ

pub record SelectionChunk : Type 0 where
  pub chunk_id : String
  pub chunk_order : ℕ
  pub status : Status
  pub member_turn_ids : List String

pub record PartRange : Type 0 where
  pub from_step : ℕ
  pub to_step : ℕ

pub record ArrangementEntry : Type 0 where
  pub band : Band
  pub subject_kind : SubjectKind
  pub subject_id : String
  pub derivation_used : String
  pub degraded : Bool
  pub gap : Bool
  pub reason : Option String
  pub start_order : ℕ
  pub text : String
  pub tokens : ℕ
  pub part : Option PartRange

-- `entries.reduce((sum, entry) => sum + entry.tokens, 0)`
abbrev pub tokens_of : List ArrangementEntry → ℕ
tokens_of [] = 0
tokens_of (e ∷ entries) = e.tokens + tokens_of entries

pub record Percentages : Type 0 where
  pub full : ℕ
  pub smooth : ℕ
  pub detailed : ℕ
  pub brief : ℕ

-- The token estimator, and the share that protects the newest closed turn, are left out.
pub record SelectionConfig : Type 0 where
  pub lower_bound : ℕ
  pub percentages : Percentages
  pub compact_point_upper_bound : Option ℕ
