-- ===== src/Wallet/Validity.antt =====
-- The requests that the validation of UpsertLink passes.
use mathlib.Core.Bool.{false≢true}
use zuno_marketplace_api.Common.{
  Text, codes, ℕ, ◌≡◌, ◌≢◌, ◌↔◌, refl, sym, ◌∙◌, ap, subst, true, false, ◌&&◌, List, [], ◌∷◌, ◌++◌,
  none, arith, ◌==◌, ==_iff, length, all, is_empty, split, Lacks, split_two, split-append,
  split-Lacks,
}
use zuno_marketplace_api.Wallet.Model.{WalletLink}
use zuno_marketplace_api.Wallet.Validate.{
  is_hex, is_0x_hex, is_valid_ethereum_address, is_pair, is_valid_chain_id, validate_wallet_link,
}

-- `0x` and 40 hexadecimal digits of either case.
pub record IsAddress (text : Text) : Type 0 where
  pub digits : Text
  pub spelled : text ≡ codes "0x" ++ digits
  pub count : length digits ≡ 40
  pub hex : all is_hex digits ≡ true

-- A namespace, one colon, and a reference, neither of them empty.
pub record IsPairOfParts (text : Text) : Type 0 where
  pub namespace : Text
  pub reference : Text
  pub spelled : text ≡ namespace ++ b':' ∷ reference
  pub namespace_lacks : Lacks b':' namespace
  pub reference_lacks : Lacks b':' reference
  pub some_namespace : namespace ≢ []
  pub some_reference : reference ≢ []

pub record IsValid (link : WalletLink) : Type 0 where
  pub some_user : link.user_id ≢ []
  pub some_account : link.account_id ≢ []
  pub address : IsAddress link.address
  pub chain : IsPairOfParts link.chain_id

is_empty-nonempty : (s : Text) → (is_empty s ≡ false) ↔ (s ≢ [])
is_empty-nonempty [] = (λ h. absurd (false≢true (sym h)), λ h. absurd (h refl))
is_empty-nonempty (c ∷ s) = (λ h e. cc, λ h. refl)

valid-IsAddress-IsAddress : (text : Text) → (is_valid_ethereum_address text ≡ true) ↔ IsAddress text
unfolding is_valid_ethereum_address
valid-IsAddress-IsAddress text = (forth text, back text)
  where
    forth : (text : Text) → (length text == 42 && is_0x_hex text) ≡ true → IsAddress text
    forth [] h = cc
    forth (a ∷ []) h = cc
    forth (a ∷ b ∷ digits) h = record {
      digits = digits;
      spelled = ap2 ((==_iff a b'0').0 (ground (arith, h))) ((==_iff b b'x').0 (ground (arith, h)));
      count = ground (arith, h);
      hex = ground (arith, h);
    }
      where
        ap2 : {a a' b b' : ℕ} → a ≡ a' → b ≡ b' → ◌≡◌ {A = Text} (a ∷ b ∷ digits) (a' ∷ b' ∷ digits)
        ap2 e e' = cc

    back : (text : Text) → IsAddress text → (length text == 42 && is_0x_hex text) ≡ true
    back text v =
        subst (λ (t : Text). (length t == 42 && is_0x_hex t) ≡ true) (sym v.spelled)
          (ground (arith, v.count, v.hex))

chain-IsPairOfParts : (text : Text) → (is_valid_chain_id text ≡ true) ↔ IsPairOfParts text
unfolding is_valid_chain_id
chain-IsPairOfParts text = (λ h. forth (split b':' text) refl h, back)
  where
    forth :
        (parts : List Text) → split b':' text ≡ parts → is_pair parts ≡ true → IsPairOfParts text
    forth [] e h = cc
    forth (a ∷ []) e h = cc
    forth (a ∷ b ∷ []) e h =
        let (spelled, left, right) = split_two b':' text a b e in
        record {
          namespace = a;
          reference = b;
          spelled = spelled;
          namespace_lacks = left;
          reference_lacks = right;
          some_namespace = (is_empty-nonempty a).0 (ground (arith, h));
          some_reference = (is_empty-nonempty b).0 (ground (arith, h));
        }
    forth (a ∷ b ∷ c ∷ l) e h = cc

    back : IsPairOfParts text → is_pair (split b':' text) ≡ true
    back v =
        let parts : split b':' text ≡ v.namespace ∷ v.reference ∷ [] =
          ap (split b':') v.spelled
          ∙ split-append b':' v.namespace v.reference v.namespace_lacks
          ∙ ap (◌∷◌ v.namespace) (split-Lacks b':' v.reference v.reference_lacks) in
        let left = (is_empty-nonempty v.namespace).1 v.some_namespace in
        let right = (is_empty-nonempty v.reference).1 v.some_reference in
        subst (λ (l : List Text). is_pair l ≡ true) (sym parts) (ground (arith, left, right))

filled_address : (a : Text) → IsAddress a → is_empty a ≡ false
filled_address a v = ap is_empty v.spelled

filled_chain : (c : Text) → IsPairOfParts c → is_empty c ≡ false
filled_chain c v = ap is_empty v.spelled ∙ mid v.namespace v.reference
  where
    mid : (s t : Text) → is_empty (s ++ b':' ∷ t) ≡ false
    mid [] t = refl
    mid (x ∷ s) t = refl

-- The validation passes exactly the links with a user, an account, a `0x` address of 40 hexadecimal
-- digits and a chain of a non-empty namespace and reference parted by the only colon.
pub validate_wallet_link-IsValid :
    (link : WalletLink) → (validate_wallet_link link ≡ none) ↔ IsValid link
unfolding validate_wallet_link
validate_wallet_link-IsValid link = (forth, back)
  where
    forth : validate_wallet_link link ≡ none → IsValid link
    forth h = record {
      some_user = (is_empty-nonempty link.user_id).0 (ground (arith, h));
      some_account = (is_empty-nonempty link.account_id).0 (ground (arith, h));
      address = (valid-IsAddress-IsAddress link.address).0 (ground (arith, h));
      chain = (chain-IsPairOfParts link.chain_id).0 (ground (arith, h));
    }

    back : IsValid link → validate_wallet_link link ≡ none
    back v =
        let user = (is_empty-nonempty link.user_id).1 v.some_user in
        let account = (is_empty-nonempty link.account_id).1 v.some_account in
        let address = (valid-IsAddress-IsAddress link.address).1 v.address in
        let chain = (chain-IsPairOfParts link.chain_id).1 v.chain in
        let filled = filled_address link.address v.address in
        let filled' = filled_chain link.chain_id v.chain in
        ground (arith, user, account, address, chain, filled, filled')
