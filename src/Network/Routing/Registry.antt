-- ===== src/Network/Routing/Registry.antt =====
-- Lemmas on the reversal registry of app/network_routing.py.
use atlas_pay.Prelude.{
  Bool-cases, ok, ◌==◌, nat_eq, text_eq, mem, ◌≡◌, sym, ap, ◌∙◌, ◌≢◌, inl, inr, true, false, some,
  arith,
}
use atlas_pay.Prelude.Dict.{lookup, contains, insert, lookup-insert}
use atlas_pay.Canonical.{NetworkCorrelation, correlation_beq_iff, correlation_eq}
use atlas_pay.Network.Routing.{
  ReversalReason, ReversalLink, ReversalRegistry, new_registry, link, for_original,
}
use atlas_pay.Prelude.Sets.{add, mem-add}

pub record IsOneToOne (g : ReversalRegistry) : Type 0 where
  pub keyed :
      (o : NetworkCorrelation) (l : ReversalLink)
      → for_original o g ≡ some l
      → (l.original ≡ o) × (l.reversal ≢ o) × (mem l.reversal g.reversal_keys ≡ true)
  pub apart :
      (o o' : NetworkCorrelation) (l l' : ReversalLink)
      → for_original o g ≡ some l
      → for_original o' g ≡ some l'
      → l.reversal ≡ l'.reversal
      → o ≡ o'

pub data Reach : ReversalRegistry → Type 0 where
  start : Reach new_registry
  links :
      {g g' : ReversalRegistry} (o r : NetworkCorrelation) (why : ReversalReason) (l : ReversalLink)
      → Reach g
      → link o r why g ≡ ok (l, g')
      → Reach g'

link_shape :
    (o r : NetworkCorrelation) (why : ReversalReason) (g g' : ReversalRegistry) (l : ReversalLink)
    → link o r why g ≡ ok (l, g')
    → ((o == r) ≡ false)
      × (contains o g.by_original ≡ false)
      × (mem r g.reversal_keys ≡ false)
      × (l ≡ record { original = o; reversal = r; reason = why })
      × (g' ≡ record {
        by_original = insert o l g.by_original;
        reversal_keys = add r g.reversal_keys;
      })
unfolding link
link_shape o r why g g' l e = ground arith

module _ (o r : NetworkCorrelation) (why : ReversalReason) (g : ReversalRegistry) (h : IsOneToOne g)
    (differ : (o == r) ≡ false) (fresh : contains o g.by_original ≡ false)
    (free : mem r g.reversal_keys ≡ false) where
  linked : ReversalRegistry
  linked = record {
    by_original = insert o (record { original = o; reversal = r; reason = why }) g.by_original;
    reversal_keys = add r g.reversal_keys;
  }

  -- A link of the new registry is the new one, or one that was there.
  data Found (k : NetworkCorrelation) (m : ReversalLink) : Type 0 where
    added : o ≡ k → m ≡ record { original = o; reversal = r; reason = why } → Found k m
    kept : (o == k) ≡ false → for_original k g ≡ some m → Found k m

  find : (k : NetworkCorrelation) (m : ReversalLink) → for_original k linked ≡ some m → Found k m
  unfolding for_original linked
  find k m f = elim (Bool-cases (o == k)) [
    | inl e ↦ added ((correlation_beq_iff o k).0 e) (
        ground (
          arith,
          e,
          lookup-insert o k (record { original = o; reversal = r; reason = why }) g.by_original,
        ))
    | inr e ↦ kept e (
        ground (
          arith,
          e,
          lookup-insert o k (record { original = o; reversal = r; reason = why }) g.by_original,
        ))
  ]

  keyed_of :
      (k : NetworkCorrelation) (m : ReversalLink)
      → Found k m
      → (m.original ≡ k) × (m.reversal ≢ k) × (mem m.reversal linked.reversal_keys ≡ true)
  unfolding linked
  keyed_of k m (added e shape) = rw shape (
    e,
    λ same. cc (differ, (correlation_beq_iff o r).1 (e ∙ sym same)),
    ground (arith, mem-add r r g.reversal_keys, correlation_beq_iff r r),
  )
  keyed_of k m (kept e f) =
      let (a, b, c) = h.keyed k m f in
      (a, b, ground (arith, c, mem-add r m.reversal g.reversal_keys))

  apart_of :
      (k j : NetworkCorrelation) (m m' : ReversalLink)
      → Found k m
      → Found j m'
      → m.reversal ≡ m'.reversal
      → k ≡ j
  apart_of k j m m' (added e shape) (added e' shape') same = sym e ∙ e'
  apart_of k j m m' (added e shape) (kept e' f') same =
      absurd
        (taken m' (h.keyed j m' f').2 (ap (λ (l : ReversalLink). l.reversal) (sym shape) ∙ same))
    where
      taken : (m' : ReversalLink) → mem m'.reversal g.reversal_keys ≡ true → r ≡ m'.reversal → ⊥
      taken m' c e = cc (c, free, ap (λ (x : NetworkCorrelation). mem x g.reversal_keys) e)
  apart_of k j m m' (kept e f) (added e' shape') same =
      absurd
        (taken m (h.keyed k m f).2 (ap (λ (l : ReversalLink). l.reversal) (sym shape') ∙ sym same))
    where
      taken : (m' : ReversalLink) → mem m'.reversal g.reversal_keys ≡ true → r ≡ m'.reversal → ⊥
      taken m' c e = cc (c, free, ap (λ (x : NetworkCorrelation). mem x g.reversal_keys) e)
  apart_of k j m m' (kept e f) (kept e' f') same = h.apart k j m m' f f' same

  linked-IsOneToOne : IsOneToOne linked
  linked-IsOneToOne = record {
    keyed = λ k m f. keyed_of k m (find k m f);
    apart = λ k j m m' f f' same. apart_of k j m m' (find k m f) (find j m' f') same;
  }

new-IsOneToOne : IsOneToOne new_registry
unfolding for_original lookup
new-IsOneToOne = record { keyed = λ o l f. cc; apart = λ o o' l l' f. cc }

-- In every registry that a sequence of calls builds, the link of an original names that original
-- and a reversal that differs from it, and no two originals share a reversal.
pub Reach-IsOneToOne : {g : ReversalRegistry} → Reach g → IsOneToOne g
unfolding linked
Reach-IsOneToOne start = new-IsOneToOne
Reach-IsOneToOne (links {g} {g'} o r why l reach e) =
    let (differ, fresh, free, el, eg) = link_shape o r why g g' l e in
    rw eg (rw el (linked-IsOneToOne o r why g (Reach-IsOneToOne reach) differ fresh free))
