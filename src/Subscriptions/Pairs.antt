-- ===== src/Subscriptions/Pairs.antt =====
-- Who is subscribed to what after a change of the map of sets.
use zuno_marketplace_api.Common.{
  Text, Bool, true, false, not, ◌&&◌, ◌||◌, List, [], ◌∷◌, if◌then◌else◌, arith, Bool-cases,
  text_eq, text_eq_iff, ◌≡◌, refl, sym, ◌∙◌, ap, inl, inr, subst,
}
use zuno_marketplace_api.Subscriptions.Sets.{
  mem, insert, delete, Subscriptions, subscribers_of, has_key, delete_key, put_key, is_empty_set,
  delete_everywhere, IsMapOfSets,
}
use zuno_marketplace_api.Subscriptions.Membership.{
  mem-delete, mem-insert, subscribers_of-absent, has_key-delete_key, subscribers_of-delete_other,
  subscribers_of-delete_everywhere, IsMapOfSets-delete_everywhere,
}
use zuno_marketplace_api.Subscriptions.Manager.{without_subscriber, delete_all}
use zuno_marketplace_api.Subscriptions.Spec.{with_pair, without_pair}

module _ (i : Text) (s : Subscriptions) where
  same : {x y : Text} → text_eq x y ≡ true → x ≡ y
  same {x} {y} h = (text_eq_iff x y).0 h

  mem-put_key :
      (l : List Text) (i' x : Text)
      → mem x (subscribers_of i' (put_key i l s))
        ≡ (if text_eq i i' then mem x l else mem x (subscribers_of i' s))
  unfolding subscribers_of
  mem-put_key l i' x = elim (Bool-cases (text_eq i i')) [
    | inl hit ↦ rw hit refl
    | inr miss ↦ rw miss (ap (mem x) (subscribers_of-delete_other i' i s miss))
  ]

  pub mem-add :
      (c i' x : Text)
      → mem x (subscribers_of i' (put_key i (insert c (subscribers_of i s)) s))
        ≡ with_pair i c (λ j y. mem y (subscribers_of j s)) i' x
  mem-add c i' x =
      mem-put_key (insert c (subscribers_of i s)) i' x ∙ elim (Bool-cases (text_eq i i')) [
        | inl hit ↦
            let e : mem x (subscribers_of i s) ≡ mem x (subscribers_of i' s) =
              ap (λ j. mem x (subscribers_of j s)) (same hit) in
            rw hit (mem-insert x c (subscribers_of i s) ∙ rw e refl)
        | inr miss ↦ rw miss refl
      ]

  mem-delete_key :
      (i' x : Text)
      → mem x (subscribers_of i' (delete_key i s))
        ≡ (not (text_eq i i') && mem x (subscribers_of i' s))
  mem-delete_key i' x = elim (Bool-cases (text_eq i i')) [
    | inl hit ↦
        let e : subscribers_of i' (delete_key i s) ≡ [] =
          subst (λ j. subscribers_of j (delete_key i s) ≡ []) (same hit)
            (subscribers_of-absent i (delete_key i s) (has_key-delete_key i s)) in
        rw (hit, e) refl
    | inr miss ↦ rw (miss, subscribers_of-delete_other i' i s miss) refl
  ]

  pub mem-remove :
      (c i' x : Text)
      → mem x (subscribers_of i' (without_subscriber i c s))
        ≡ without_pair i c (λ j y. mem y (subscribers_of j s)) i' x
  mem-remove c i' x = elim (Bool-cases (is_empty_set (delete c (subscribers_of i s)))) [
    | inl emptied ↦ rw emptied (
        mem-delete_key i' x ∙ elim (Bool-cases (text_eq i i')) [
          | inl hit ↦
              let e : mem x (subscribers_of i s) ≡ mem x (subscribers_of i' s) =
                ap (λ j. mem x (subscribers_of j s)) (same hit) in
              let d : mem x (delete c (subscribers_of i s)) ≡ false = none_in _ emptied in
              let f = mem-delete x c (subscribers_of i s) in ground (arith, hit, e, d, f)
          | inr miss ↦ rw miss refl
        ])
    | inr left ↦ rw left (
        mem-put_key (delete c (subscribers_of i s)) i' x ∙ elim (Bool-cases (text_eq i i')) [
          | inl hit ↦
              let e : mem x (subscribers_of i s) ≡ mem x (subscribers_of i' s) =
                ap (λ j. mem x (subscribers_of j s)) (same hit) in
              rw hit (mem-delete x c (subscribers_of i s) ∙ rw e refl)
          | inr miss ↦ rw miss refl
        ])
  ]
    where
      none_in : (l : List Text) → is_empty_set l ≡ true → mem x l ≡ false
      none_in [] h = refl
      none_in (y ∷ l) h = absurd (cc)

-- A pair whose intent has no key is not there.
pub absent_pair :
    (i c i' x : Text) (s : Subscriptions)
    → has_key i s ≡ false
    → mem x (subscribers_of i' s) ≡ without_pair i c (λ j y. mem y (subscribers_of j s)) i' x
absent_pair i c i' x s h = elim (Bool-cases (text_eq i i')) [
  | inl hit ↦
      let e : subscribers_of i' s ≡ [] =
        subst (λ j. subscribers_of j s ≡ []) ((text_eq_iff i i').0 hit)
          (subscribers_of-absent i s h) in
      rw (hit, e) (sym (and_false _))
  | inr miss ↦ rw miss refl
]
  where
    and_false : (b : Bool) → (b && false) ≡ false
    and_false true = refl
    and_false false = refl

pub mem-delete_all :
    (ids : List Text) (s : Subscriptions) (i x : Text)
    → IsMapOfSets s
    → mem x (subscribers_of i (delete_all ids s)) ≡ (not (mem x ids) && mem x (subscribers_of i s))
unfolding delete_all
mem-delete_all [] s i x h = refl
mem-delete_all (c ∷ ids) s i x h =
    let later =
      mem-delete_all ids (delete_everywhere c s) i x (IsMapOfSets-delete_everywhere c s h) in
    let e =
      ap (mem x) (subscribers_of-delete_everywhere i c s h) ∙ mem-delete x c (subscribers_of i s) in
    later ∙ both (text_eq c x) (mem x ids) (mem x (subscribers_of i s)) e
  where
    both : (a b c : Bool) {d : Bool} → d ≡ (not a && c) → (not b && d) ≡ (not (a || b) && c)
    both true true c e = refl
    both true false c e = e
    both false true c e = refl
    both false false c e = e
