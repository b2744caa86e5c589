-- ===== src/Subscriptions/Stopping.antt =====
-- How the manager stops.
use zuno_marketplace_api.Common.{
  Text, Bool, true, false, not, List, [], ◌∷◌, if◌then◌else◌, arith, Bool-cases, any, Result, ok,
  err, Exec, ◌>>=◌, ◌≡◌, refl, ◌∙◌, ap, inl, inr,
}
use zuno_marketplace_api.Subscriptions.Model.{
  Manager, WorkerError, Lock, held, blocked, shutdown_failed,
}
use zuno_marketplace_api.Subscriptions.Manager.{
  remove_connection, close, close_all, stop, shut_server, shut_down,
}

-- Is a connection of the list not closed?
abbrev pub any_open : List Text → Manager → Bool
any_open ids m = any (λ id. not (m.connection id).closed) ids

close-open :
    (id : Text) (m : Manager) → (m.connection id).closed ≡ false → (close held id m).0 ≡ err blocked
unfolding close remove_connection
close-open id m h = rw h refl

close-closed :
    (lock : Lock) (id : Text) (m : Manager)
    → (m.connection id).closed ≡ true
    → close lock id m ≡ (ok tt, m)
unfolding close
close-closed lock id m h = rw h refl

-- What is after an error does not run.
bind-eq-err :
    {A B : Type 0} (c : Exec Manager WorkerError A) (f : A → Exec Manager WorkerError B)
    (m : Manager) (e : WorkerError)
    → (c m).0 ≡ err e
    → ((c >>= f) m).0 ≡ err e
unfolding ◌>>=◌
bind-eq-err {A} {B} c f m e h = stuck (c m) h
  where
    stuck :
        (r : Result WorkerError A × Manager)
        → r.0 ≡ err e
        → (((λ (s : Manager). r) >>= f) m).0 ≡ err e
    stuck (ok a, s) h = absurd (cc)
    stuck (err x, s) h = ap (λ o. elim o [ ok a ↦ err x | err y ↦ err y ]) h

bind-eq-ok_at :
    {A B : Type 0} (c : Exec Manager WorkerError A) (f : A → Exec Manager WorkerError B)
    (m m' : Manager) (a : A)
    → c m ≡ (ok a, m')
    → (c >>= f) m ≡ f a m'
unfolding ◌>>=◌
bind-eq-ok_at {A} {B} c f m m' a h =
    ap (λ (r : Result WorkerError A × Manager). ((λ (s : Manager). r) >>= f) m) h

close_all-open :
    (ids : List Text) (m : Manager) → any_open ids m ≡ true → (close_all ids m).0 ≡ err blocked
unfolding close_all
close_all-open [] m h = absurd (cc)
close_all-open (id ∷ ids) m h = elim (Bool-cases (m.connection id).closed) [
  | inl done ↦
      ap (λ (r : Result WorkerError (Unit {0}) × Manager). r.0)
        (bind-eq-ok_at (close held id) (λ u. close_all ids) m m tt (close-closed held id m done))
      ∙ close_all-open ids m (ground (arith, h, done))
  | inr open_ ↦ bind-eq-err (close held id) (λ u. close_all ids) m blocked (close-open id m open_)
]

close_all-closed :
    (ids : List Text) (m : Manager) → any_open ids m ≡ false → close_all ids m ≡ (ok tt, m)
unfolding close_all
close_all-closed [] m h = refl
close_all-closed (id ∷ ids) m h =
    let done : (m.connection id).closed ≡ true = ground (arith, h) in
    bind-eq-ok_at (close held id) (λ u. close_all ids) m m tt (close-closed held id m done)
    ∙ close_all-closed ids m (ground (arith, h))

shut_down-outcome :
    (fails : Bool) (m : Manager)
    → (shut_down fails m).0 ≡ (
        if any_open m.connections m
        then err blocked
        else if fails
        then err shutdown_failed
        else ok tt)
shut_down-outcome fails m = elim (Bool-cases (any_open m.connections m)) [
  | inl open_ ↦ rw open_ (
      bind-eq-err (close_all m.connections) (λ u. shut_server fails) m blocked
        (close_all-open m.connections m open_))
  | inr closed_ ↦ rw closed_ (
      ap (λ (r : Result WorkerError (Unit {0}) × Manager). r.0)
        (bind-eq-ok_at (close_all m.connections) (λ u. shut_server fails) m m tt
          (close_all-closed m.connections m closed_))
      ∙ answered fails)
]
  where
    answered : (b : Bool) → (shut_server b m).0 ≡ (if b then err shutdown_failed else ok tt)
    answered true = refl
    answered false = refl

-- What Stop on a running manager ends with: with a connection that is not closed yet it waits for ever
-- for the lock it holds, and without one it has the server's answer.
pub stop-outcome :
    (fails : Bool) (m : Manager)
    → m.is_running ≡ true
    → (stop fails m).0 ≡ (
        if any_open m.connections m
        then err blocked
        else if fails
        then err shutdown_failed
        else ok tt)
unfolding stop
stop-outcome fails m running =
    ap (λ (b : Bool). (if b then shut_down fails m else (ok tt, m)).0) running
    ∙ shut_down-outcome fails m
