-- ===== src/Owned/Event.antt =====
-- src/owned/event.rs, and `Receipt` of src/owned/request.rs: what a reaped entry authorises.
use ququmatz.Base.{ℕ, Bool, true, false, Option, some, none, ◌≡◌, refl, ◌⊎◌, inl, inr}
use ququmatz.Base.Int.{ℤ}
use ququmatz.Owned.{same_request}

pub record Receipt : Type 0 where
  pub ring : ℕ
  pub id : ℕ
  pub result : ℤ
  pub flags : ℕ

pub record PartialReceipt : Type 0 where
  pub ring : ℕ
  pub id : ℕ
  pub result : ℤ
  pub flags : ℕ

pub data Event : Type 0 where
  complete : Receipt → Event
  partial : PartialReceipt → Event

abbrev pub belongs_to : Receipt → ℕ → ℕ → Bool
belongs_to receipt = same_request receipt.ring receipt.id

abbrev pub partial_belongs_to : PartialReceipt → ℕ → ℕ → Bool
partial_belongs_to notice = same_request notice.ring notice.id

-- `Event::belongs_to`
abbrev pub event_belongs_to : Event → ℕ → ℕ → Bool
event_belongs_to (complete receipt) = belongs_to receipt
event_belongs_to (partial notice) = partial_belongs_to notice

-- `into_receipt`: only a terminal entry gives one.
abbrev pub into_receipt : Event → Option Receipt
into_receipt (complete receipt) = some receipt
into_receipt (partial notice) = none

abbrev pub is_terminal : Event → Bool
is_terminal (complete receipt) = true
is_terminal (partial notice) = false

-- To split on a computed event and keep the equation.
pub Event-cases :
    (event : Event)
    → ((receipt : Receipt) × (event ≡ complete receipt))
      ⊎ ((notice : PartialReceipt) × (event ≡ partial notice))
Event-cases (complete receipt) = inl (receipt, refl)
Event-cases (partial notice) = inr (notice, refl)

-- `Event::flags` and `Event::raw_result`
abbrev pub event_flags : Event → ℕ
event_flags (complete receipt) = receipt.flags
event_flags (partial notice) = notice.flags

abbrev pub event_result : Event → ℤ
event_result (complete receipt) = receipt.result
event_result (partial notice) = notice.result
