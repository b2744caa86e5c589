-- ===== src/Auth/Replay.antt =====
-- The order in which methods run: the stores that a service reaches, and sign-in messages that
-- come a second time.
use zuno_marketplace_api.Common.{
  ℕ, Text, ◌≡◌, ◌≢◌, refl, sym, ◌∙◌, ap, subst, Bool, true, false, not, List, [], Option, none,
  some, arith, equal_fold, is_empty, require, ok, bind-eq-ok, bind-eq-ok_same, require-eq-ok,
}
use zuno_marketplace_api.Auth.Model.{
  AuthError, AuthResult, address_mismatch, nonce_required, message_unparsable, bad_signature,
  signer_mismatch, nonce_rejected, Nonce, NonceRow, Session, Store,
}
use zuno_marketplace_api.Auth.Repo.{create_nonce, try_use_nonce}
use zuno_marketplace_api.Auth.Sessions.{create_session, update_session_last_used, revoke_session}
use zuno_marketplace_api.Auth.Service.{World, SiweMessage, check, get_nonce}
use zuno_marketplace_api.Auth.SignIn.{
  Config, Draw, or_fail, check_expiry, check_start, validate_siwe_message, authenticate,
  chain_id_text, open_session, verify_siwe,
}
use zuno_marketplace_api.Auth.Tokens.{refresh, logout, logout_by_refresh_token}
use zuno_marketplace_api.Auth.Tables.{
  Stable, OfTables, create_nonce-Keeps, try_use_nonce-Keeps, create_session-Keeps,
  update_session_last_used-Keeps, revoke_session-Keeps, get_nonce-Keeps, open_session-Keeps,
  verify_siwe-Keeps, refresh-Keeps, logout-Keeps, logout_by_refresh_token-Keeps,
}
use zuno_marketplace_api.Auth.Spent.{
  Nonces, OneRow, IsSpent, OneRow-Stable, IsSpent-Stable, try_use_nonce_refused,
  try_use_nonce_spends,
}

abbrev pub empty_store : List Bool → Store
empty_store faults = record {
  nonces = [];
  sessions = [];
  cache = [];
  published = [];
  faults = faults;
}

module _ (world : World) where
  -- One run of a method, or of one call of the repository that a concurrent method makes, or a
  -- change of what will fail.
  pub data Step : Store → Store → Type 0 where
    step_get_nonce :
        (now : ℕ) (entropy : Option (List ℕ)) (account_id chain_id domain : Text) {s : Store}
        → Step s (get_nonce now entropy account_id chain_id domain s).1
    step_verify_siwe :
        (now : ℕ) (config : Config) (draw : Draw) (account_id message signature : Text) {s : Store}
        → Step s (verify_siwe world now config draw account_id message signature s).1
    step_refresh : (now : ℕ) (token : Text) {s : Store} → Step s (refresh world now token s).1
    step_logout :
        (now : ℕ) (session_id : Text) {s : Store} → Step s (logout world now session_id s).1
    step_logout_by_refresh_token :
        (now : ℕ) (token : Text) {s : Store} → Step s (logout_by_refresh_token world now token s).1
    step_create_nonce : (now : ℕ) (nonce : Nonce) {s : Store} → Step s (create_nonce now nonce s).1
    step_try_use_nonce :
        (now : ℕ) (value account_id chain_id domain : Text) {s : Store}
        → Step s (try_use_nonce now value account_id chain_id domain s).1
    step_create_session : (session : Session) {s : Store} → Step s (create_session session s).1
    step_update_session_last_used :
        (now : ℕ) (session_id : Text) {s : Store}
        → Step s (update_session_last_used now session_id s).1
    step_revoke_session :
        (now : ℕ) (session_id : Text) {s : Store} → Step s (revoke_session now session_id s).1
    step_faults : (faults : List Bool) {s : Store} → Step s (record s { faults = faults })

  pub data Reach (start : Store) : Store → Type 0 where
    reach_start : Reach start start
    reach_step : {s s' : Store} → Reach start s → Step s s' → Reach start s'

  module _ (P : List NonceRow → List Session → Type 0) (stable : Stable P) where
    Step-keeps : {s s' : Store} → Step s s' → OfTables P s → OfTables P s'
    Step-keeps (step_get_nonce now e a c d {s}) h = (get_nonce-Keeps P stable now e a c d).at s h
    Step-keeps (step_verify_siwe now config draw a m g {s}) h =
        (verify_siwe-Keeps P stable world now config draw a m g).at s h
    Step-keeps (step_refresh now token {s}) h = (refresh-Keeps P stable world now token).at s h
    Step-keeps (step_logout now id {s}) h = (logout-Keeps P stable world now id).at s h
    Step-keeps (step_logout_by_refresh_token now token {s}) h =
        (logout_by_refresh_token-Keeps P stable world now token).at s h
    Step-keeps (step_create_nonce now nonce {s}) h = (create_nonce-Keeps P stable now nonce).at s h
    Step-keeps (step_try_use_nonce now v a c d {s}) h =
        (try_use_nonce-Keeps P stable now v a c d).at s h
    Step-keeps (step_create_session session {s}) h = (create_session-Keeps P stable session).at s h
    Step-keeps (step_update_session_last_used now id {s}) h =
        (update_session_last_used-Keeps P stable now id).at s h
    Step-keeps (step_revoke_session now id {s}) h = (revoke_session-Keeps P stable now id).at s h
    Step-keeps (step_faults faults) h = h

    pub Reach-keeps : {start s : Store} → Reach start s → OfTables P start → OfTables P s
    Reach-keeps reach_start h = h
    Reach-keeps (reach_step r step) h = Step-keeps step (Reach-keeps r h)

  module _ (now : ℕ) where
    pub or_fail-eq-ok :
        {A : Type 0} (o : Option A) (e : AuthError) (s : Store) {a : A}
        → (or_fail world now o e s).0 ≡ ok a
        → (o ≡ some a) × ((or_fail world now o e s).1 ≡ s)
    or_fail-eq-ok none e s h = cc
    or_fail-eq-ok (some a) e s h = (ground (arith, h), refl)

    check-eq-ok :
        (o : Option AuthError) (s : Store) {u : Unit {0}}
        → (check o s).0 ≡ ok u
        → (o ≡ none) × ((check o s).1 ≡ s)
    check-eq-ok none s h = (refl, refl)
    check-eq-ok (some e) s h = cc

    -- What holds of a message that passes.
    pub record Authentic (account_id message signature : Text) (m : SiweMessage) : Type 0 where
      pub parsed : world.parse_message message ≡ some m
      pub address : equal_fold m.address account_id ≡ true
      pub unexpired : check_expiry world now m.expiration_time ≡ none
      pub started : check_start world now m.not_before ≡ none
      pub has_nonce : is_empty m.nonce ≡ false
      pub signer : world.Account
      pub recovered : world.verify_eip191 m signature ≡ some signer
      pub is_signer : world.same_account signer (world.hex_to_address account_id) ≡ true

    abbrev Checked : Text → SiweMessage → Type 0
    Checked account_id m =
        (equal_fold m.address account_id ≡ true)
        × (check_expiry world now m.expiration_time ≡ none)
        × (check_start world now m.not_before ≡ none)
        × (is_empty m.nonce ≡ false)

    validate_siwe_message-eq-ok :
        (m : SiweMessage) (account_id : Text) (s : Store) {u : Unit {0}}
        → (validate_siwe_message world now m account_id s).0 ≡ ok u
        → (equal_fold m.address account_id ≡ true)
          × (check_expiry world now m.expiration_time ≡ none)
          × (check_start world now m.not_before ≡ none)
          × (is_empty m.nonce ≡ false)
          × ((validate_siwe_message world now m account_id s).1 ≡ s)
    unfolding validate_siwe_message
    validate_siwe_message-eq-ok m account_id s h =
        let (u, address, rest, e) =
          bind-eq-ok_same (require (equal_fold m.address account_id) address_mismatch) _ s
            (λ _. equal_fold m.address account_id ≡ true) (λ _. require-eq-ok _ _ s) h in
        let (u, expiry, rest, e') =
          bind-eq-ok_same (check (check_expiry world now m.expiration_time)) _ s
            (λ _. check_expiry world now m.expiration_time ≡ none) (λ _. check-eq-ok _ s) rest in
        let (u, start, rest, e'') =
          bind-eq-ok_same (check (check_start world now m.not_before)) _ s
            (λ _. check_start world now m.not_before ≡ none) (λ _. check-eq-ok _ s) rest in
        let (nonce, same) = require-eq-ok (not (is_empty m.nonce)) nonce_required s rest in
        (address, expiry, start, ground (arith, nonce), e ∙ e' ∙ e'' ∙ same)

    pub authenticate-eq-ok :
        (account_id message signature : Text) (s : Store) {m : SiweMessage}
        → (authenticate world now account_id message signature s).0 ≡ ok m
        → Authentic account_id message signature m
          × ((authenticate world now account_id message signature s).1 ≡ s)
    unfolding authenticate
    authenticate-eq-ok account_id message signature s {m} h =
        let (m', parsed, rest, e) =
          bind-eq-ok_same (or_fail world now (world.parse_message message) message_unparsable) _ s
            (λ m'. world.parse_message message ≡ some m') (λ _. or_fail-eq-ok _ _ s) h in
        let (u, (address, expiry, start, nonce), rest, e') =
          bind-eq-ok_same (validate_siwe_message world now m' account_id) _ s
            (λ _. Checked account_id m')
            (λ _ q.
              let (a, b, c, d, e) = validate_siwe_message-eq-ok m' account_id s q in
              ((a, b, c, d), e))
            rest in
        let (signer, recovered, rest, e'') =
          bind-eq-ok_same (or_fail world now (world.verify_eip191 m' signature) bad_signature) _ s
            (λ signer. world.verify_eip191 m' signature ≡ some signer) (λ _. or_fail-eq-ok _ _ s)
            rest in
        let (u, is_signer, rest, e''') =
          bind-eq-ok_same
            (require (world.same_account signer (world.hex_to_address account_id)) signer_mismatch)
            _ s (λ _. world.same_account signer (world.hex_to_address account_id) ≡ true)
            (λ _. require-eq-ok _ _ s) rest in
        let last : m' ≡ m = ground (arith, rest) in
        (
          subst (Authentic account_id message signature) last (record {
            parsed = parsed;
            address = address;
            unexpired = expiry;
            started = start;
            has_nonce = nonce;
            signer = signer;
            recovered = recovered;
            is_signer = is_signer;
          }),
          e ∙ e' ∙ e'' ∙ e''',
        )

    -- What has run when a sign-in succeeds.
    pub verify_siwe-eq-ok :
        (config : Config) (draw : Draw) (account_id message signature : Text) (s : Store)
        {result : AuthResult}
        → (verify_siwe world now config draw account_id message signature s).0 ≡ ok result
        → (m : SiweMessage) × Authentic account_id message signature m
          × let used = try_use_nonce now m.nonce account_id (chain_id_text m.chain_id) m.domain s in
            (used.0 ≡ ok true)
            × ((open_session world now config draw account_id (chain_id_text m.chain_id) used.1).0
                ≡ ok result)
            × ((verify_siwe world now config draw account_id message signature s).1
                ≡ (open_session world now config draw account_id
                    (chain_id_text m.chain_id)
                    used.1).1)
    unfolding verify_siwe
    verify_siwe-eq-ok config draw account_id message signature s {result} h =
        let (m, authentic, rest, e) =
          bind-eq-ok_same (authenticate world now account_id message signature) _ s
            (Authentic account_id message signature)
            (λ _. authenticate-eq-ok account_id message signature s) h in
        let use_it = try_use_nonce now m.nonce account_id (chain_id_text m.chain_id) m.domain in
        let (b, used, rest, e') = bind-eq-ok use_it _ s rest in
        let (u, success, rest, e'') =
          bind-eq-ok_same (require b nonce_rejected) _ (use_it s).1 (λ _. b ≡ true)
            (λ _. require-eq-ok b _ _) rest in
        (m, authentic, (used ∙ ap ok success, rest, e ∙ e' ∙ e''))

  -- After a sign-in that succeeds, no later sign-in with a message of the same nonce succeeds,
  -- whoever signs it and whatever runs in between.
  pub verify_siwe-refused_again :
      (faults : List Bool) (before later : Store) (now now' : ℕ) (config config' : Config)
      (draw draw' : Draw) (account_id account_id' message message' signature signature' : Text)
      (m m' : SiweMessage) (result : AuthResult)
      → Reach (empty_store faults) before
      → (verify_siwe world now config draw account_id message signature before).0 ≡ ok result
      → Reach (verify_siwe world now config draw account_id message signature before).1 later
      → world.parse_message message ≡ some m
      → world.parse_message message' ≡ some m'
      → m'.nonce ≡ m.nonce
      → (result' : AuthResult)
      → (verify_siwe world now' config' draw' account_id' message' signature' later).0 ≢ ok result'
  verify_siwe-refused_again faults before later now now' config config' draw draw' account_id
        account_id' message message' signature signature' m m' result reach first after parsed
        parsed' same result' second =
      let (n, authentic, (used, opened, e)) =
        verify_siwe-eq-ok now config draw account_id message signature before first in
      let (n', authentic', (used', opened', e')) =
        verify_siwe-eq-ok now' config' draw' account_id' message' signature' later second in
      let value : m.nonce ≡ n.nonce = ground (arith, parsed, authentic.parsed) in
      let value' : n'.nonce ≡ m.nonce = ground (arith, parsed', authentic'.parsed, same) in
      let one : OneRow before.nonces =
        Reach-keeps (Nonces OneRow) OneRow-Stable reach
          (record { same = λ r r' k k' q. elim k [ ] }) in
      let chain = chain_id_text n.chain_id in
      let spent = try_use_nonce_spends now n.nonce account_id chain n.domain before one used in
      let here =
        (open_session-Keeps (Nonces (IsSpent n.nonce)) (IsSpent-Stable n.nonce) world now config
            draw account_id chain).at
          (try_use_nonce now n.nonce account_id chain n.domain before).1 spent in
      let there =
        Reach-keeps (Nonces (IsSpent n.nonce)) (IsSpent-Stable n.nonce) after
          (subst (λ (s : Store). IsSpent n.nonce s.nonces) (sym e) here) in
      try_use_nonce_refused now' n'.nonce account_id' (chain_id_text n'.chain_id) n'.domain later
        (subst (λ (v : Text). IsSpent v later.nonces) (sym (value' ∙ value)) there) used'
