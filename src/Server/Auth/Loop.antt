-- ===== src/Server/Auth/Loop.antt =====
-- A loop over the older connections of a user that removes some of them.
use imserver.Prelude.{
  ℕ, ◌≡◌, inl, inr, sym, ap, ◌∙◌, Bool, true, false, List, [], ◌∷◌, ◌++◌, append_assoc, append-nil,
  Option, none, some, ◌==◌, if◌then◌else◌, Bool-cases,
}
use mathlib.Core.Path.{subst}
use imserver.Proto.Types.{Text}
use imserver.Server.ConnManager.{
  NetConn, Engine, ConnManager, get_conn, fd_of, append_conn, conns_of, with_flag,
  remove_conn_with_id,
}
use imserver.Server.Auth.{Kicked}
use imserver.Server.Auth.Kicks.{
  flagged, flagged-first, with_flag-one, Rounds, keep_first, Known-first, left, removes,
  left-Rounds, left-flagged,
}

-- Those of some connections that a test does not drop.
abbrev pub left_of : (NetConn → Bool) → List NetConn → List NetConn
left_of drops [] = []
left_of drops (c ∷ conns) = if drops c then left_of drops conns else c ∷ left_of drops conns

-- A loop that removes from the manager the connections that a test drops, and keeps the others.
pub record IsLoop (eng : Engine) (drops : NetConn → Bool)
    (loop : List NetConn → Kicked → Option Kicked) : Type 0 where
  pub ends : (k : Kicked) → loop [] k ≡ some k
  pub drop :
      (c : NetConn) (olds : List NetConn) (k : Kicked) (m : ConnManager)
      → drops c ≡ true
      → remove_conn_with_id eng c.id k.manager ≡ some m
      → (k' : Kicked) × (loop (c ∷ olds) k ≡ loop olds k') × (k'.manager ≡ m)
  pub keep :
      (c : NetConn) (olds : List NetConn) (k : Kicked)
      → drops c ≡ false
      → (k' : Kicked) × (loop (c ∷ olds) k ≡ loop olds k') × (k'.manager ≡ k.manager)

module _ (eng : Engine) (uid : Text) (flag new : ℕ) (none_at_0 : eng 0 ≡ none)
    (drops : NetConn → Bool) (loop : List NetConn → Kicked → Option Kicked)
    (is : IsLoop eng drops loop) where
  -- What the loop ends in: some connections with the flag stay.
  abbrev pub Done : List NetConn → Kicked → List NetConn → Type 0
  Done olds k stays =
      (k' : Kicked) × (final : List ℕ) × (loop olds k ≡ some k')
      × Rounds eng k'.manager uid flag new final [] stays

  -- The rounds go on with a list, from a manager.
  abbrev Goes : List NetConn → Kicked → List NetConn → Type 0
  Goes olds k stays = Done olds k (stays ++ left_of drops olds)

  -- A round of the loop and what follows it.
  drop-Goes :
      (m : ConnManager) (stays : List NetConn) (c : NetConn) (olds : List NetConn) (k : Kicked)
      → drops c ≡ true
      → remove_conn_with_id eng c.id k.manager ≡ some m
      → ((k' : Kicked) → k'.manager ≡ m → Goes olds k' stays)
      → Goes (c ∷ olds) k stays
  drop-Goes m stays c olds k y removed on =
      let (k1, e, same) = is.drop c olds k m y removed in
      let (k', final, run, rounds) = on k1 same in (k', final, e ∙ run, rw y rounds)

  keep-Goes :
      (stays : List NetConn) (c : NetConn) (olds : List NetConn) (k : Kicked)
      → drops c ≡ false
      → ((k' : Kicked) → k'.manager ≡ k.manager → Goes olds k' (stays ++ c ∷ []))
      → Goes (c ∷ olds) k stays
  keep-Goes stays c olds k n on =
      let (k1, e, same) = is.keep c olds k n in
      let (k', final, run, rounds) = on k1 same in
      (
        k',
        final,
        e ∙ run,
        rw n (
            subst (Rounds eng k'.manager uid flag new final [])
              (append_assoc stays (c ∷ []) (left_of drops olds)) rounds),
      )

  -- The first connection has the flag.
  hit-Goes :
      (k : Kicked) (kept rest : List ℕ) (stays : List NetConn) (c : NetConn)
      (r : Rounds eng k.manager uid flag new kept (c.id ∷ rest) stays)
      (at : k.manager.conn_map c.id ≡ some c.fd) (served : eng c.fd ≡ some c) (of : c.uid ≡ uid)
      → with_flag flag (append_conn (get_conn eng k.manager c.id) []) ≡ c ∷ []
      → ((k' : Kicked) (kept' : List ℕ) (stays' : List NetConn)
          → Rounds eng k'.manager uid flag new kept' rest stays'
          → Goes (flagged eng k'.manager flag rest) k' stays')
      → Goes (c ∷ flagged eng k.manager flag rest) k stays
  hit-Goes k kept rest stays c r at served of found on = elim (Bool-cases (drops c)) [
    | inl y ↦
        (let m' = left eng uid flag new none_at_0 k.manager kept rest stays c r at served of in
          drop-Goes m' stays c (flagged eng k.manager flag rest) k y
            (removes eng uid flag new none_at_0 k.manager kept rest stays c r at served of)
            λ k' same.
              subst (λ l. Goes l k' stays)
                (ap (λ m. flagged eng m flag rest) same
                  ∙ left-flagged eng uid flag new none_at_0 k.manager kept rest stays c r at served
                      of)
                (on k' kept stays (
                  subst (λ m. Rounds eng m uid flag new kept rest stays) (sym same)
                    (left-Rounds eng uid flag new none_at_0 k.manager kept rest stays c r at served
                      of))))
    | inr n ↦ keep-Goes stays c (flagged eng k.manager flag rest) k n λ k' same.
        subst (λ l. Goes l k' (stays ++ c ∷ [])) (ap (λ m. flagged eng m flag rest) same)
          (on k' (kept ++ c.id ∷ []) (stays ++ c ∷ []) (
            subst (λ m. Rounds eng m uid flag new (kept ++ c.id ∷ []) rest (stays ++ c ∷ []))
              (sym same)
              (keep_first eng uid flag new none_at_0 k.manager kept c.id rest stays (c ∷ []) r
                found)))
  ]

  -- The loop ends without a panic, and drops exactly what the test drops.
  pub loop-clean :
      (rest kept : List ℕ) (k : Kicked) (stays : List NetConn)
      → Rounds eng k.manager uid flag new kept rest stays
      → Goes (flagged eng k.manager flag rest) k stays
  unfolding conns_of with_flag append_conn
  loop-clean [] kept k stays r = (
    k,
    kept,
    is.ends k,
    subst (Rounds eng k.manager uid flag new kept []) (sym (append-nil stays)) r,
  )
  loop-clean (i ∷ rest) kept k stays r =
      let m = k.manager in
      let split = flagged-first eng uid flag new none_at_0 m i rest in
      let pass : with_flag flag (append_conn (get_conn eng m i) []) ≡ []
          → Goes (flagged eng m flag (i ∷ rest)) k stays =
        λ gone.
          subst (λ l. Goes l k stays) (sym (split ∙ ap (λ l. l ++ flagged eng m flag rest) gone))
            (loop-clean rest (kept ++ i ∷ []) k stays (
              subst (Rounds eng m uid flag new (kept ++ i ∷ []) rest) (append-nil stays)
                (keep_first eng uid flag new none_at_0 m kept i rest stays [] r gone))) in
      elim (Known-first eng uid flag new none_at_0 m kept i rest r.known).0 [
        | inl stale ↦ pass (
            ap (λ o. with_flag flag (append_conn o [])) (ap (λ o. eng (fd_of o)) stale ∙ none_at_0))
        | inr (c, at, served, same, of) ↦
            (let here : get_conn eng m i ≡ some c = ap (λ o. eng (fd_of o)) at ∙ served in
              elim (Bool-cases (c.device_flag == flag)) [
                | inr other ↦ pass (with_flag-one flag c (get_conn eng m i) false here other)
                | inl hit ↦
                    (let r_c : Rounds eng m uid flag new kept (c.id ∷ rest) stays =
                        subst (λ (j : ℕ). Rounds eng m uid flag new kept (j ∷ rest) stays)
                          (sym same) r in
                      let at_c : m.conn_map c.id ≡ some c.fd = ap m.conn_map same ∙ at in
                      let here_c : get_conn eng m c.id ≡ some c =
                        ap (λ o. eng (fd_of o)) at_c ∙ served in
                      let first = with_flag-one flag c (get_conn eng m i) true here hit in
                      subst (λ l. Goes l k stays)
                        (sym (split ∙ ap (λ l. l ++ flagged eng m flag rest) first))
                        (hit-Goes k kept rest stays c r_c at_c served of
                          (with_flag-one flag c (get_conn eng m c.id) true here_c hit)
                          (λ k' kept' stays' r'. loop-clean rest kept' k' stays' r')))
              ])
      ]
