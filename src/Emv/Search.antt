-- ===== src/Emv/Search.antt =====
-- The search for a tag against a flat list of all items.
use atlas_pay.Prelude.{
  Bool-cases, keep, text_eq, ◌==◌, nat_eq, Text, Unicode, upper, ◌≡◌, refl, sym, ap, inl, inr, Bool,
  List, [], ◌∷◌, ◌++◌,
}
use atlas_pay.Emv.{BerTlv, ber_tlv, BerTlvs, none_left, item_then, find_tags, find_in}

-- All items, each before the items below it.
unfoldable mutual
  pub all_items : BerTlvs → List BerTlv
  all_items none_left = []
  all_items (item_then item items) = items_of item ++ all_items items

  pub items_of : BerTlv → List BerTlv
  items_of (ber_tlv tag value constructed children) =
      ber_tlv tag value constructed children ∷ all_items children

abbrev pub tag_of : BerTlv → Text
tag_of (ber_tlv tag value constructed children) = tag

keep-append : (p : BerTlv → Bool) (xs ys : List BerTlv) → keep p (xs ++ ys) ≡ keep p xs ++ keep p ys
keep-append p [] ys = refl
keep-append p (x ∷ xs) ys = elim (Bool-cases (p x)) [
  | inl h ↦ rw h (ap (◌∷◌ x) (keep-append p xs ys))
  | inr h ↦ rw h (keep-append p xs ys)
]

module _ (u : Unicode) (idempotent : (s : Text) → upper u (upper u s) ≡ upper u s) where
  mutual
    unfolding find_tags all_items

    find_tags_capital :
        (items : BerTlvs) (tag : Text)
        → upper u tag ≡ tag
        → find_tags u items tag ≡ keep (λ i. tag_of i == tag) (all_items items)
    find_tags_capital none_left tag capital = refl
    find_tags_capital (item_then item items) tag capital =
        rw (capital, find_in_capital item tag capital, find_tags_capital items tag capital)
          (sym (keep-append (λ i. tag_of i == tag) (items_of item) (all_items items)))

    find_in_capital :
        (item : BerTlv) (tag : Text)
        → upper u tag ≡ tag
        → find_in u item tag ≡ keep (λ i. tag_of i == tag) (items_of item)
    find_in_capital (ber_tlv t value constructed children) tag capital =
        rw (find_tags_capital children tag capital) refl

  -- Where capitalising twice is the same as once, `find_tags` returns exactly the items of the
  -- tag in capitals, at every depth, each before those below it, and none of them twice or left
  -- out.
  pub find_tags-all_items :
      (items : BerTlvs) (tag : Text)
      → find_tags u items tag ≡ keep (λ i. tag_of i == upper u tag) (all_items items)
  unfolding find_tags all_items
  find_tags-all_items none_left tag = refl
  find_tags-all_items (item_then item items) tag =
      rw (find_in_capital item (upper u tag) (idempotent tag), find_tags-all_items items tag)
        (sym (keep-append (λ i. tag_of i == upper u tag) (items_of item) (all_items items)))
