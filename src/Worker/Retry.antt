-- ===== src/Worker/Retry.antt =====
-- What deliverWithRetry (internal/worker/pool.go) does in all: how often it sends, and what its
-- results say.
use pulse_notify.Prelude.{
  ℕ, zero, suc, ◌+◌, ◌^◌, ◌≤◌, ◌<◌, ℤ, pos, pos_part, leb_ℤ, ◌+ℤ◌, wrap64, ◌≡◌, refl, ◌⊎◌, inl, inr,
  true, Bool-cases, Option, none, some, Option-cases, List, [], ◌∷◌, arith,
}
use pulse_notify.Errors.{Error}
use pulse_notify.Model.{Duration, NotificationEvent}
use pulse_notify.State.{Db, State, Call, stated, sending, waited, committing}
use pulse_notify.Worker.Notifier.{Context}
use pulse_notify.Worker.Pool.{Pool, bound, send, pause, backoff, deliver_from, deliver_with_retry}

-- The calls of Notifier.Send in a history.
abbrev pub sends : List Call → ℕ
sends [] = 0
sends (sending evt e ∷ cs) = suc (sends cs)
sends (stated d ∷ cs) = sends cs
sends (waited d done ∷ cs) = sends cs
sends (committing b msg e ∷ cs) = sends cs

-- A `select` takes the branch of ctx.Done() only in a context that has an error (package context).
abbrev pub DoneHasError : {W : Type 0} → Context W → Type 0
DoneHasError {W} ctx =
    (d : Duration) (w : W)
    → (ctx.wait d w).0 ≡ true
    → (e : Error) × (ctx.error (ctx.wait d w).1 ≡ some e)

abbrev pub EndsWith : Call → List Call → Type 0
EndsWith c cs = (rest : List Call) × (cs ≡ c ∷ rest)

-- A delivery that started with `before` sends in the history and may send `most` times.
pub record Delivered {W : Type 0} (p : Pool W) (evt : NotificationEvent) (before most : ℕ) (db : Db)
    (r : (ℤ × Option Error) × State W) : Type 0 where
  pub attempts : ℕ
  -- the number that is returned is the number of sends
  pub counted : r.0.0 ≡ pos attempts
  pub sent : sends r.1.calls ≡ before + attempts
  pub few : attempts ≤ most
  pub same_db : r.1.db ≡ db
  -- either success, with a send that succeeded as the last call, or the error of the last allowed
  -- send, or the context's
  pub ended :
      ((r.0.1 ≡ none) × EndsWith (sending evt none) r.1.calls)
      ⊎ ((e : Error) × (r.0.1 ≡ some e)
          × (((attempts ≡ most) × EndsWith (sending evt (some e)) r.1.calls)
              ⊎ (p.ctx.error r.1.world ≡ some e)))

module _ {W : Type 0} (p : Pool W) (evt : NotificationEvent) (m before : ℕ)
    (retries : p.max_retries ≡ pos m) (bounded : bound p ≡ pos (m + 1))
    (done_has_error : DoneHasError p.ctx) where
  leb-le : (k : ℕ) → leb_ℤ (pos (suc k)) p.max_retries ≡ true → k < m
  leb-le k h = let e : leb_ℤ (pos (suc k)) (pos m) ≡ true = rw retries at h in ground arith

  deliver_from-Delivered :
      (rounds k : ℕ) (last : Option Error) (s : State W)
      → rounds + k ≡ m + 1
      → sends s.calls ≡ before + k
      → (rounds ≡ 0 → (x : Error) × (last ≡ some x) × EndsWith (sending evt (some x)) s.calls)
      → Delivered p evt before (m + 1) s.db (deliver_from p evt rounds (suc k) last s)
  unfolding deliver_from
  deliver_from-Delivered zero k last s count seen stop =
      let (x, e, last_sent) = stop refl in
      record {
        attempts = m + 1;
        counted = bounded;
        sent = omega arith;
        few = omega arith;
        same_db = refl;
        ended = inr (x, e, inl (refl, last_sent));
      }
  deliver_from-Delivered (suc rounds) k last s count seen stop =
      elim (Option-cases (p.ctx.error s.world)) [
        | inr (e, cancelled) ↦
            rw (cancelled, deliver_from)
              (record {
                attempts = k;
                counted = ground arith;
                sent = seen;
                few = omega arith;
                same_db = refl;
                ended = inr (e, refl, inr cancelled);
              })
        | inl running ↦ elim (Option-cases (p.notifier evt s.world).0) [
          | inl delivered ↦
              rw (running, deliver_from, delivered)
                (record {
                  attempts = suc k;
                  counted = refl;
                  sent = omega arith;
                  few = omega arith;
                  same_db = refl;
                  ended = inl (refl, (s.calls, rw delivered));
                })
          | inr (x, failed) ↦ elim (Bool-cases (leb_ℤ (pos (suc k)) p.max_retries)) [
            | inl again ↦ elim (Bool-cases (pause p (backoff (suc k)) (send p evt s).1).0) [
              | inl done ↦
                  let (e, cancelled) =
                    done_has_error (backoff (suc k)) (send p evt s).1.world done in
                  rw (running, deliver_from, failed, again, done)
                    (record {
                      attempts = suc k;
                      counted = refl;
                      sent = omega arith;
                      few = omega arith;
                      same_db = refl;
                      ended = inr (e, cancelled, inr cancelled);
                    })
              | inr ready ↦
                  rw (running, deliver_from, failed, again, ready)
                    (deliver_from-Delivered rounds (suc k) (some x)
                      (pause p (backoff (suc k)) (send p evt s).1).1 (omega arith) (omega arith)
                      (λ z. absurd (omega (arith, leb-le k again))))
            ]
            | inr over ↦
                rw (running, deliver_from, failed, over)
                  (deliver_from-Delivered rounds (suc k) (some x) (send p evt s).1 (omega arith)
                    (omega arith) (λ z. (x, refl, (s.calls, rw failed))))
          ]
        ]
      ]

bound_lem :
    {W : Type 0} (p : Pool W) (m : ℕ)
    → p.max_retries ≡ pos m
    → m + 2 < 2 ^ 63
    → bound p ≡ pos (m + 1)
unfolding wrap64 ◌+ℤ◌
bound_lem p m h small = rw h (ground arith)

-- In a pool whose retry count is m, from 0 to the largest int less 2, deliverWithRetry makes
-- at most m + 1 sends and returns their number. It returns no error only if its last call was a
-- send that succeeded. An error is that of the send m + 1, or the context's. The tables stay as
-- they were. It is assumed that a context whose Done() channel is closed has an error.
pub deliver_with_retry-Delivered :
    {W : Type 0} (p : Pool W) (evt : NotificationEvent) (m : ℕ) (s : State W)
    → p.max_retries ≡ pos m
    → m + 2 < 2 ^ 63
    → DoneHasError p.ctx
    → Delivered p evt (sends s.calls) (m + 1) s.db (deliver_with_retry p evt s)
unfolding deliver_with_retry
deliver_with_retry-Delivered p evt m s retries small done_has_error =
    let bounded : bound p ≡ pos (m + 1) = bound_lem p m retries small in
    rw bounded (
      deliver_from-Delivered p evt m (sends s.calls) retries bounded done_has_error (m + 1) 0 none s
        (omega arith) (omega arith) (λ z. absurd (omega arith)))

module _ {ℓ} {W : Type 0} (p : Pool W) (evt : NotificationEvent) (P : State W → Type ℓ)
    (send_keeps : (s : State W) → P s → P (send p evt s).1)
    (pause_keeps : (d : Duration) (s : State W) → P s → P (pause p d s).1) where
  deliver_from-keeps :
      (rounds attempt : ℕ) (last : Option Error) (s : State W)
      → P s
      → P (deliver_from p evt rounds attempt last s).1
  unfolding deliver_from
  deliver_from-keeps zero attempt last s h = h
  deliver_from-keeps (suc rounds) attempt last s h =
      let s1 = (send p evt s).1 in
      let s2 = (pause p (backoff attempt) s1).1 in
      let h1 : P s1 = send_keeps s h in
      let h2 : P s2 = pause_keeps (backoff attempt) s1 h1 in
      elim (Option-cases (p.ctx.error s.world)) [
        | inr (e, cancelled) ↦ rw (cancelled, deliver_from) h
        | inl running ↦ elim (Option-cases (p.notifier evt s.world).0) [
          | inl delivered ↦ rw (running, deliver_from, delivered) h1
          | inr (x, failed) ↦ elim (Bool-cases (leb_ℤ (pos attempt) p.max_retries)) [
            | inl again ↦ elim (Bool-cases (p.ctx.wait (backoff attempt) s1.world).0) [
              | inl done ↦ rw (running, deliver_from, failed, again, done) h2
              | inr ready ↦
                  rw (running, deliver_from, failed, again, ready)
                    (deliver_from-keeps rounds (suc attempt) (some x) s2 h2)
            ]
            | inr over ↦
                rw (running, deliver_from, failed, over)
                  (deliver_from-keeps rounds (suc attempt) (some x) s1 h1)
          ]
        ]
      ]

  pub deliver_with_retry-keeps : (s : State W) → P s → P (deliver_with_retry p evt s).1
  unfolding deliver_with_retry
  deliver_with_retry-keeps s h = deliver_from-keeps (pos_part (bound p)) 1 none s h
