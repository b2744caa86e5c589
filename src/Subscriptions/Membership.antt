-- ===== src/Subscriptions/Membership.antt =====
-- The members of a map of sets after its operations.
use zuno_marketplace_api.Common.{
  Text, ◌≡◌, refl, sym, ◌∙◌, ap, inl, inr, Bool, true, false, not, ◌&&◌, ◌||◌, List, [], ◌∷◌, arith,
  Bool-cases, keep, text_eq, text_eq_iff, text_eq_refl,
}
use zuno_marketplace_api.Subscriptions.Sets.{
  mem, insert, delete, is_empty_set, Subscriptions, subscribers_of, has_key, delete_key, put_key,
  delete_everywhere, IsSetList, IsMapOfSets,
}

same_text : (x y : Text) → text_eq x y ≡ true → x ≡ y
same_text x y h = (text_eq_iff x y).0 h

pub mem-keep : (p : Text → Bool) (x : Text) (l : List Text) → mem x (keep p l) ≡ (p x && mem x l)
unfolding keep
mem-keep p x [] = ground arith
mem-keep p x (z ∷ l) =
    let later = mem-keep p x l in
    elim (Bool-cases (text_eq z x)) [
      | inl here ↦ let e : p z ≡ p x = ap p (same_text z x here) in ground (arith, later, e, here)
      | inr other ↦ ground (arith, later, other)
    ]

module _ (x y : Text) where
  pub mem-delete : (l : List Text) → mem x (delete y l) ≡ (not (text_eq y x) && mem x l)
  unfolding keep
  mem-delete [] = ground arith
  mem-delete (z ∷ l) =
      let later = mem-delete l in
      elim (Bool-cases (text_eq z y)) [
        | inl hit ↦
            let e : text_eq z x ≡ text_eq y x = ap (λ w. text_eq w x) (same_text z y hit) in
            ground (arith, hit, later, e)
        | inr miss ↦ elim (Bool-cases (text_eq z x)) [
          | inl here ↦
              let e : text_eq y x ≡ false = differ z here miss in
              ground (arith, miss, later, here, e)
          | inr other ↦ ground (arith, miss, later, other)
        ]
      ]
    where
      differ : (z : Text) → text_eq z x ≡ true → text_eq z y ≡ false → text_eq y x ≡ false
      differ z here miss = elim (Bool-cases (text_eq y x)) [
        | inl same ↦ absurd (
            let e = text_eq_refl z in
            let d : z ≡ y = same_text z x here ∙ sym (same_text y x same) in
            let k : text_eq z y ≡ true = sym (ap (λ w. text_eq z w) d) ∙ e in cc)
        | inr other ↦ other
      ]

  pub mem-insert : (l : List Text) → mem x (insert y l) ≡ (text_eq y x || mem x l)
  mem-insert l = elim (Bool-cases (mem y l)) [
    | inl known ↦ elim (Bool-cases (text_eq y x)) [
      | inl same ↦
          let e : mem x l ≡ mem y l = ap (λ w. mem w l) (sym (same_text y x same)) in
          rw (known, same, e, known) refl
      | inr other ↦ rw (known, other) refl
    ]
    | inr fresh ↦ rw fresh refl
  ]

module _ (intent_id : Text) where
  pub subscribers_of-absent :
      (s : Subscriptions) → has_key intent_id s ≡ false → subscribers_of intent_id s ≡ []
  unfolding subscribers_of
  subscribers_of-absent [] h = refl
  subscribers_of-absent ((k, l) ∷ rest) h = elim (Bool-cases (text_eq k intent_id)) [
    | inl same ↦ absurd (ground (arith, h, same))
    | inr other ↦ rw other (subscribers_of-absent rest (ground (arith, h, other)))
  ]

  pub has_key-delete_key : (s : Subscriptions) → has_key intent_id (delete_key intent_id s) ≡ false
  unfolding delete_key
  has_key-delete_key [] = refl
  has_key-delete_key ((k, l) ∷ rest) =
      let later = has_key-delete_key rest in
      elim (Bool-cases (text_eq k intent_id)) [
        | inl same ↦ rw same later
        | inr other ↦ ground (arith, other, later)
      ]

  pub has_key-delete_other :
      (j : Text) (s : Subscriptions)
      → has_key intent_id s ≡ false
      → has_key intent_id (delete_key j s) ≡ false
  unfolding delete_key
  has_key-delete_other j [] h = refl
  has_key-delete_other j ((k, l) ∷ rest) h =
      let later = has_key-delete_other j rest (ground (arith, h)) in
      elim (Bool-cases (text_eq k j)) [
        | inl same ↦ rw same later
        | inr other ↦ ground (arith, other, later, h)
      ]

  pub has_key-delete_everywhere :
      (c : Text) (s : Subscriptions)
      → has_key intent_id s ≡ false
      → has_key intent_id (delete_everywhere c s) ≡ false
  unfolding delete_everywhere
  has_key-delete_everywhere c [] h = refl
  has_key-delete_everywhere c ((k, l) ∷ rest) h =
      let later = has_key-delete_everywhere c rest (ground (arith, h)) in
      elim (Bool-cases (is_empty_set (delete c l))) [
        | inl emptied ↦ rw emptied later
        | inr left ↦ ground (arith, left, later, h)
      ]

  pub subscribers_of-delete_other :
      (j : Text) (s : Subscriptions)
      → text_eq j intent_id ≡ false
      → subscribers_of intent_id (delete_key j s) ≡ subscribers_of intent_id s
  unfolding subscribers_of delete_key
  subscribers_of-delete_other j [] h = refl
  subscribers_of-delete_other j ((k, l) ∷ rest) h =
      let later = subscribers_of-delete_other j rest h in
      elim (Bool-cases (text_eq k j)) [
        | inl same ↦
            let e : text_eq k intent_id ≡ false =
              ap (λ w. text_eq w intent_id) (same_text k j same) ∙ h in
            rw (same, e) later
        | inr other ↦ rw (other, later) refl
      ]

  pub subscribers_of-delete_everywhere :
      (c : Text) (s : Subscriptions)
      → IsMapOfSets s
      → subscribers_of intent_id (delete_everywhere c s) ≡ delete c (subscribers_of intent_id s)
  unfolding subscribers_of delete_everywhere keep
  subscribers_of-delete_everywhere c [] h = refl
  subscribers_of-delete_everywhere c ((k, l) ∷ rest) h =
      let later = subscribers_of-delete_everywhere c rest h.3 in
      elim (Bool-cases (text_eq k intent_id)) [
        | inl same ↦ elim (Bool-cases (is_empty_set (delete c l))) [
          | inl emptied ↦
              let none_ : has_key intent_id rest ≡ false =
                sym (ap (λ w. has_key w rest) (same_text k intent_id same)) ∙ h.0 in
              rw (emptied, same)
                (subscribers_of-absent (delete_everywhere c rest)
                    (has_key-delete_everywhere c rest none_)
                  ∙ sym (is_empty_set→eq (delete c l) emptied))
          | inr left ↦ rw (left, same) refl
        ]
        | inr other ↦ elim (Bool-cases (is_empty_set (delete c l))) [
          | inl emptied ↦ rw (emptied, other) later
          | inr left ↦ rw (left, other) later
        ]
      ]
    where
      is_empty_set→eq : (l : List Text) → is_empty_set l ≡ true → l ≡ []
      is_empty_set→eq [] e = refl
      is_empty_set→eq (x ∷ l) e = absurd (cc)

-- The sets stay sets.
pub IsSetList-keep : (p : Text → Bool) (l : List Text) → IsSetList l → IsSetList (keep p l)
unfolding keep
IsSetList-keep p [] h = tt
IsSetList-keep p (x ∷ l) h =
    let later = IsSetList-keep p l h.1 in
    elim (Bool-cases (p x)) [
      | inl kept ↦ rw kept (fresh (p x) (mem-keep p x l) h.0, later)
      | inr dropped ↦ rw dropped later
    ]
  where
    fresh : {a c : Bool} (b : Bool) → a ≡ (b && c) → c ≡ false → a ≡ false
    fresh b e h = ground (arith, e, h)

pub IsSetList-insert : (y : Text) (l : List Text) → IsSetList l → IsSetList (insert y l)
IsSetList-insert y l h = elim (Bool-cases (mem y l)) [
  | inl known ↦ rw known h
  | inr fresh ↦ rw fresh (fresh, h)
]

pub IsSetList-subscribers_of :
    (i : Text) (s : Subscriptions) → IsMapOfSets s → IsSetList (subscribers_of i s)
unfolding subscribers_of
IsSetList-subscribers_of i [] h = tt
IsSetList-subscribers_of i ((k, l) ∷ rest) h = elim (Bool-cases (text_eq k i)) [
  | inl same ↦ rw same (h.1)
  | inr other ↦ rw other (IsSetList-subscribers_of i rest h.3)
]

pub IsMapOfSets-delete_key :
    (i : Text) (s : Subscriptions) → IsMapOfSets s → IsMapOfSets (delete_key i s)
unfolding delete_key
IsMapOfSets-delete_key i [] h = tt
IsMapOfSets-delete_key i ((k, l) ∷ rest) h =
    let later = IsMapOfSets-delete_key i rest h.3 in
    elim (Bool-cases (text_eq k i)) [
      | inl same ↦ rw same later
      | inr other ↦ rw other (has_key-delete_other k i rest h.0, h.1, h.2, later)
    ]

pub IsMapOfSets-put_key :
    (i : Text) (l : List Text) (s : Subscriptions)
    → IsSetList l
    → is_empty_set l ≡ false
    → IsMapOfSets s
    → IsMapOfSets (put_key i l s)
IsMapOfSets-put_key i l s d e h = (has_key-delete_key i s, d, e, IsMapOfSets-delete_key i s h)

pub IsMapOfSets-delete_everywhere :
    (c : Text) (s : Subscriptions) → IsMapOfSets s → IsMapOfSets (delete_everywhere c s)
unfolding delete_everywhere
IsMapOfSets-delete_everywhere c [] h = tt
IsMapOfSets-delete_everywhere c ((k, l) ∷ rest) h =
    let later = IsMapOfSets-delete_everywhere c rest h.3 in
    elim (Bool-cases (is_empty_set (delete c l))) [
      | inl emptied ↦ rw emptied later
      | inr left ↦
          rw left (has_key-delete_everywhere k c rest h.0, IsSetList-keep _ l h.1, left, later)
    ]
