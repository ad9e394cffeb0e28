-- ===== src/Network/Coordinator/Reachable.antt =====
-- What holds of every coordinator that the program can reach.
use atlas_pay.Prelude.{
  leb, Bool-cases, Option-cases, ok, ◌==◌, nat_eq, text_eq, mem, ℕ, ◌≡◌, refl, inl, inr, Bool, true,
  false, not, ◌&&◌, ◌||◌, List, [], ◌∷◌, arith,
}
use atlas_pay.Prelude.Dict.{
  Dict, lookup, contains, insert, erase, lookup-insert, lookup-erase, contains-lookup,
}
use atlas_pay.Canonical.{NetworkCorrelation, correlation_beq_iff, correlation_eq}
use atlas_pay.Iso8583.Spec.{Iso8583Message}
use atlas_pay.Network.Coordinator.{
  TransactionDisposition, PendingTransaction, Coordinator, register, cancel, expire, handle_key,
  handle_response,
}
use atlas_pay.Prelude.Sets.{add, discard, mem-add, mem-discard}

abbrev pub HasUniqueKeys : Dict NetworkCorrelation PendingTransaction → Type 0
HasUniqueKeys [] = Unit
HasUniqueKeys ((k, t) ∷ d) = (contains k d ≡ false) × HasUniqueKeys d

-- A key stands in one of the three collections at most, and once in the dict.
pub record IsConsistent (c : Coordinator) : Type 0 where
  pub unique : HasUniqueKeys c.pending
  pub completed_apart :
      (k : NetworkCorrelation)
      → mem k c.completed ≡ true
      → (mem k c.timed_out_set || contains k c.pending) ≡ false
  pub timed_out_apart :
      (k : NetworkCorrelation) → mem k c.timed_out_set ≡ true → contains k c.pending ≡ false

-- One call that returns, for any messages and any clock.
pub data Step (c c' : Coordinator) : Type 0 where
  registers :
      (request : Iso8583Message) (now timeout : ℕ) (key : NetworkCorrelation)
      → register request now timeout c ≡ ok (key, c')
      → Step c c'
  cancels :
      (request : Iso8583Message) (found : Bool) → cancel request c ≡ ok (found, c') → Step c c'
  expires : (now : ℕ) (keys : List NetworkCorrelation) → expire now c ≡ ok (keys, c') → Step c c'
  handles :
      (request response : Iso8583Message) (now : ℕ) (d : TransactionDisposition)
      → handle_response request response now c ≡ ok (d, c')
      → Step c c'

pub data Reach (c : Coordinator) : Coordinator → Type 0 where
  here : Reach c c
  next : {c' c'' : Coordinator} → Reach c c' → Step c' c'' → Reach c c''

pub contains-insert :
    (k j : NetworkCorrelation) (t : PendingTransaction)
    (d : Dict NetworkCorrelation PendingTransaction)
    → contains j (insert k t d) ≡ (k == j || contains j d)
contains-insert k j t d =
    ground (arith, contains-lookup j (insert k t d), contains-lookup j d, lookup-insert k j t d)

pub contains-erase :
    (k j : NetworkCorrelation) (d : Dict NetworkCorrelation PendingTransaction)
    → contains j (erase k d) ≡ (not (k == j) && contains j d)
contains-erase k j d =
    ground (arith, contains-lookup j (erase k d), contains-lookup j d, lookup-erase k j d)

pub insert_unique :
    (k : NetworkCorrelation) (t : PendingTransaction)
    (d : Dict NetworkCorrelation PendingTransaction)
    → HasUniqueKeys d
    → HasUniqueKeys (insert k t d)
unfolding insert
insert_unique k t [] u = (unfold contains in refl, tt)
insert_unique k t ((j, w) ∷ d) u = ground (
  arith,
  insert_unique k t d u.1,
  contains-insert k j t d,
  correlation_beq_iff k j,
  correlation_beq_iff j k,
)

pub erase_unique :
    (k : NetworkCorrelation) (d : Dict NetworkCorrelation PendingTransaction)
    → HasUniqueKeys d
    → HasUniqueKeys (erase k d)
unfolding erase
erase_unique k [] u = tt
erase_unique k ((j, w) ∷ d) u = ground (arith, erase_unique k d u.1, contains-erase k j d)

-- A key leaves the dict and enters one of the sets, or none.
pub settle-IsConsistent :
    (key : NetworkCorrelation) (c : Coordinator)
    → IsConsistent c
    → mem key c.completed ≡ false
    → mem key c.timed_out_set ≡ false
    → IsConsistent (record c { pending = erase key c.pending; completed = add key c.completed })
settle-IsConsistent key c h a b = record {
  unique = erase_unique key c.pending h.unique;
  completed_apart = λ k. ground (
    arith,
    mem-add key k c.completed,
    contains-erase key k c.pending,
    h.completed_apart k,
    correlation_beq_iff key k,
    correlation_beq_iff k key,
  );
  timed_out_apart = λ k. ground (arith, contains-erase key k c.pending, h.timed_out_apart k);
}

pub time_out-IsConsistent :
    (key : NetworkCorrelation) (c : Coordinator)
    → IsConsistent c
    → mem key c.completed ≡ false
    → IsConsistent
        (record c { pending = erase key c.pending; timed_out_set = add key c.timed_out_set })
time_out-IsConsistent key c h a = record {
  unique = erase_unique key c.pending h.unique;
  completed_apart = λ k. ground (
    arith,
    mem-add key k c.timed_out_set,
    contains-erase key k c.pending,
    h.completed_apart k,
    correlation_beq_iff key k,
    correlation_beq_iff k key,
  );
  timed_out_apart = λ k. ground (
    arith,
    mem-add key k c.timed_out_set,
    contains-erase key k c.pending,
    h.timed_out_apart k,
    correlation_beq_iff key k,
    correlation_beq_iff k key,
  );
}

pub late-IsConsistent :
    (key : NetworkCorrelation) (c : Coordinator)
    → IsConsistent c
    → mem key c.timed_out_set ≡ true
    → IsConsistent
        (record c { timed_out_set = discard key c.timed_out_set; completed = add key c.completed })
late-IsConsistent key c h a = record {
  unique = h.unique;
  completed_apart = λ k. ground (
    arith,
    mem-add key k c.completed,
    mem-discard key k c.timed_out_set,
    h.completed_apart k,
    h.timed_out_apart key,
    correlation_beq_iff key k,
    correlation_beq_iff k key,
  );
  timed_out_apart = λ k. ground (arith, mem-discard key k c.timed_out_set, h.timed_out_apart k);
}

pub handle_key-IsConsistent :
    (key : NetworkCorrelation) (now : ℕ) (c : Coordinator)
    → IsConsistent c
    → IsConsistent (handle_key key now c).1
unfolding handle_key
handle_key-IsConsistent key now c h = elim (Bool-cases (mem key c.completed)) [
  | inl done ↦ rw done h
  | inr open_key ↦ elim (Bool-cases (mem key c.timed_out_set)) [
    | inl gone ↦ rw (open_key, gone) (late-IsConsistent key c h gone)
    | inr waits ↦ elim (Option-cases (lookup key c.pending)) [
      | inl e ↦ rw (open_key, waits, e) h
      | inr (t, e) ↦ elim (Bool-cases (leb t.deadline now)) [
        | inl due ↦ rw (open_key, waits, e, due) (time_out-IsConsistent key c h open_key)
        | inr early ↦ rw (open_key, waits, e, early) (settle-IsConsistent key c h open_key waits)
      ]
    ]
  ]
]
