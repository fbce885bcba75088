-- ===== src/Messaging/Backoff.antt =====
-- The backoff of `consume`, when its loop ends, and what its callback does with each delivery.
use hypertrace.Prelude.{
  ℕ, zero, suc, ◌+◌, ◌*◌, ◌≤◌, String, ◌≡◌, ◌≢◌, refl, sym, ap, ◌∙◌, Bool, false, List, [], ◌∷◌,
  All, min, arith, length,
}
use hypertrace.Messaging.{Reply, Client, call, ensure_channel, discard_connection}
use hypertrace.Messaging.Consume.{
  Ending, max_delay, bind_all, setup, ◌then_call◌, pass, consume_loop, consume, Handler, callback,
  deliver_all,
}

-- The waits of a broker that stays away: the delay doubles up to the cap.
abbrev pub backoff : ℕ → ℕ → List ℕ
backoff zero d = []
backoff (suc n) d = d ∷ backoff n (min (d * 2) max_delay)

abbrev InRange : ℕ → Type 0
InRange d = (1 ≤ d) × (d ≤ max_delay)

doubled-InRange : (d : ℕ) → InRange d → InRange (min (d * 2) max_delay)
doubled-InRange d h = omega arith

module _ {M : Type 0} where
  pass-InRange : (keys : List String) (d : ℕ) (c : Client M) → InRange d → InRange (pass keys d c).1
  unfolding pass
  pass-InRange keys d c h = ground arith

  consume_loop-InRange :
      (n : ℕ) (stop : ℕ → Bool) (keys : List String) (d : ℕ) (c : Client M)
      → InRange d
      → All InRange (consume_loop n stop keys d c).sleeps
  unfolding consume_loop
  consume_loop-InRange zero stop keys d c h = tt
  consume_loop-InRange (suc n) stop keys d c h =
      let (r, d', c') = pass keys d c in
      let inside = pass-InRange keys d c h in
      let resumed = consume_loop-InRange n stop keys d' c' inside in
      let retried =
        consume_loop-InRange n stop keys (min (d' * 2) max_delay) (discard_connection c')
          (doubled-InRange d' inside) in
      ground arith

  -- Every wait between two attempts lasts at least one second and at most thirty.
  consume_delays :
      (n : ℕ) (stop : ℕ → Bool) (keys : List String) (c : Client M)
      → All InRange (consume n stop keys c).sleeps
  unfolding consume
  consume_delays n stop keys c = consume_loop-InRange n stop keys 1 c (omega arith)

  replies-discard : (c : Client M) → (discard_connection c).replies ≡ c.replies
  unfolding discard_connection
  replies-discard c = ground arith

  module _ (replies : ℕ → Reply) (usual : (i : ℕ) → replies i ≢ Reply.other_error) where
    -- The broker's replies are as before, and no uncaught exception was raised.
    abbrev IsUsual : Reply × Client M → Type 0
    IsUsual p = (p.1.replies ≡ replies) × (p.0 ≢ Reply.other_error)

    call-IsUsual : (c : Client M) → c.replies ≡ replies → IsUsual (call c)
    unfolding call
    call-IsUsual c e = (e, λ h. usual c.calls (ap (λ (g : ℕ → Reply). g c.calls) (sym e) ∙ h))

    then_call-IsUsual :
        (p : Reply × Client M) (g : Client M → Reply × Client M)
        → IsUsual p
        → ((c : Client M) → c.replies ≡ replies → IsUsual (g c))
        → IsUsual (p then_call g)
    then_call-IsUsual (Reply.accepted, c) g h k = k c h.0
    then_call-IsUsual (Reply.amqp_error, c) g h k = h
    then_call-IsUsual (Reply.os_error, c) g h k = h
    then_call-IsUsual (Reply.other_error, c) g h k = h

    bind_all-IsUsual :
        (keys : List String) (c : Client M) → c.replies ≡ replies → IsUsual (bind_all keys c)
    unfolding bind_all
    bind_all-IsUsual [] c e = (e, λ h. cc)
    bind_all-IsUsual (key ∷ keys) c e =
        ground (arith, call-IsUsual c e, bind_all-IsUsual keys (call c).1)

    ensure_channel-IsUsual : (c : Client M) → c.replies ≡ replies → IsUsual (ensure_channel c)
    unfolding ensure_channel
    ensure_channel-IsUsual c e =
        ground (arith, usual c.calls, usual (c.calls + 1), usual (c.calls + 1 + 1))

    setup-IsUsual :
        (keys : List String) (c : Client M) → c.replies ≡ replies → IsUsual (setup keys c)
    unfolding setup
    setup-IsUsual keys c e =
        then_call-IsUsual _ call
          (then_call-IsUsual _ call
            (then_call-IsUsual _ (bind_all keys)
              (then_call-IsUsual _ call (ensure_channel-IsUsual c e) call-IsUsual)
              (bind_all-IsUsual keys))
            call-IsUsual)
          call-IsUsual

    pass-IsUsual :
        (keys : List String) (d : ℕ) (c : Client M)
        → c.replies ≡ replies
        → ((pass keys d c).2.replies ≡ replies) × ((pass keys d c).0 ≢ Reply.other_error)
    unfolding pass
    pass-IsUsual keys d c e = ground (arith, setup-IsUsual keys c e, call-IsUsual (setup keys c).1)

  consume_loop_survives :
      (n : ℕ) (keys : List String) (d : ℕ) (c : Client M)
      → ((i : ℕ) → c.replies i ≢ Reply.other_error)
      → (consume_loop n (λ _. false) keys d c).ending ≡ Ending.looping
  unfolding consume_loop
  consume_loop_survives zero keys d c h = refl
  consume_loop_survives (suc n) keys d c h =
      let (r, d', c') = pass keys d c in
      let inside = pass-IsUsual c.replies h keys d c refl in
      let same : (discard_connection c').replies ≡ c.replies = replies-discard c' ∙ inside.0 in
      ground (
        arith,
        consume_loop_survives n keys d' c' (rw inside.0 h),
        consume_loop_survives n keys (min (d' * 2) max_delay) (discard_connection c') (rw same h),
      )

  -- Unless the flag is set, the loop goes on, whatever AMQP or socket errors occur.
  pub consume_survives :
      (n : ℕ) (keys : List String) (c : Client M)
      → ((i : ℕ) → c.replies i ≢ Reply.other_error)
      → (consume n (λ _. false) keys c).ending ≡ Ending.looping
  unfolding consume
  consume_survives n keys c h = consume_loop_survives n keys 1 c h

  pass_away :
      (keys : List String) (d : ℕ) (c : Client M)
      → ((i : ℕ) → c.replies i ≡ Reply.amqp_error)
      → ((pass keys d c).0 ≡ Reply.amqp_error) × ((pass keys d c).1 ≡ d)
  unfolding pass setup ensure_channel call
  pass_away keys d c h = grind (arith, h)

  absent :
      (c : Client M) (i : ℕ)
      → ((i : ℕ) → c.replies i ≡ Reply.amqp_error)
      → c.replies i ≡ Reply.other_error
      → ⊥
  absent c i h e = cc (h i)

  consume_loop-backoff :
      (n : ℕ) (keys : List String) (d : ℕ) (c : Client M)
      → ((i : ℕ) → c.replies i ≡ Reply.amqp_error)
      → (consume_loop n (λ _. false) keys d c).sleeps ≡ backoff n d
  unfolding consume_loop
  consume_loop-backoff zero keys d c h = refl
  consume_loop-backoff (suc n) keys d c h =
      let (r, d', c') = pass keys d c in
      let same : (discard_connection c').replies ≡ c.replies =
        replies-discard c' ∙ (pass-IsUsual c.replies (λ i e. absent c i h e) keys d c refl).0 in
      ground (
        arith,
        pass_away keys d c h,
        consume_loop-backoff n keys (min (d * 2) max_delay) (discard_connection c')
            (λ i. ap (λ (g : ℕ → Reply). g i) same ∙ h i),
      )

  -- While the broker stays away, the waits are the doubling sequence 1, 2, 4, 8, 16, 30, 30, ...
  pub consume-backoff :
      (n : ℕ) (keys : List String) (c : Client M)
      → ((i : ℕ) → c.replies i ≡ Reply.amqp_error)
      → (consume n (λ _. false) keys c).sleeps ≡ backoff n 1
  unfolding consume
  consume-backoff n keys c h = consume_loop-backoff n keys 1 c h

-- `_callback` settles each delivery once, in order.
pub length-deliver_all :
    {S M : Type 0} (on_message : Handler S M) (ms : List M) (s : S)
    → length (deliver_all on_message ms s).0 ≡ length ms
unfolding deliver_all
length-deliver_all on_message [] s = refl
length-deliver_all on_message (m ∷ ms) s =
    ap suc (length-deliver_all on_message ms (callback on_message m s).1)
