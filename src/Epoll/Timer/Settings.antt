-- ===== src/Epoll/Timer/Settings.antt =====
-- timerfd_ctx_settime and timerfd_ctx_gettime of timerfd_ctx.c, one after the other.
use wwn_iland.Common.{
  either_on, ◌+◌, ◌*◌, ◌<◌, ◌≡◌, inl, inr, refl, ap, ◌∙◌, Bool, true, false, not, ◌&&◌, arith,
  if◌then◌else◌, Option, none, List, ◌∷◌, Outcome, ok, fail, ecanceled, and_then,
}
use wwn_iland.Epoll.Timespec.{
  Timespec, Itimerspec, time, int64_max, billion, timespec_is_valid, itimerspec_is_valid,
  timespecadd_safe,
}
use wwn_iland.Epoll.Timespec.Exactness.{nanoseconds, timespecadd_safe_exact}
use wwn_iland.Epoll.Timer.{
  relative, KeventCall, delete_cancel, delete_timer, arm_timer, TimerFd, zero_time, time_eq,
}
use wwn_iland.Epoll.Timer.Arming.{register_event_timely}
use wwn_iland.Epoll.Timer.Calls.{
  Request, Replies, timespecsub, timerfd_ctx_gettime, read_old, new_time, absolute_value,
  arm_setting, finish_setting, timerfd_ctx_settime,
}
use wwn_iland.Epoll.Timer.Clocks.{time_eq-zero}
use wwn_iland.Epoll.Timer.Expirations.{IsTime}
use wwn_iland.Epoll.Timer.Kevents.{
  Clock, accepted, timerfd_ctx_get_clocktime, timerfd_ctx_register_event, arming_reply,
  deletion_reply, timerfd_ctx_check_for_cancel,
}
use wwn_iland.Epoll.Timer.Remaining.{timespecsub-nanoseconds, nonzero_of, gettime-remaining}

-- A registration that the kqueue accepts only adds to what went to it.
register_event-accepted :
    (t : TimerFd) (new now : Timespec)
    → IsTime new
    → IsTime now
    → 0 < nanoseconds new
    → (calls : List KeventCall) × (timerfd_ctx_register_event t new now accepted
        ≡ (record t { calls = calls }, ok tt))
unfolding arming_reply deletion_reply
register_event-accepted t new now vn vc positive =
    elim (register_event_timely t new now accepted vn vc positive) [
      | inl far ↦ (delete_timer ∷ t.calls, far.not_asked)
      | inr (micros, armed) ↦ (arm_timer micros ∷ delete_timer ∷ t.calls, armed.asked)
    ]

settled :
    {A B : Type 0} (valid disarms : Bool) (t s : TimerFd) (x y : TimerFd × Outcome A)
    (e : Outcome B) (u : A) (f : TimerFd → A → TimerFd × Outcome B)
    → valid ≡ true
    → disarms ≡ false
    → y ≡ (s, ok u)
    → (if not valid then (t, e) else and_then (if disarms then x else y) f) ≡ f s u
settled valid disarms t s x y e u f hv hz hy = rw (hv, hz, hy) refl

then-ok :
    {A B : Type 0} (s : TimerFd) (o : Outcome A) (a : A) (f : TimerFd → A → TimerFd × Outcome B)
    → o ≡ ok a
    → and_then (s, o) f ≡ f s a
then-ok s o a f e = rw (e) refl

never : (b : Bool) → (b && false) ≡ true → ⊥
never b h = ground (arith, h)

absolute_value-relative :
    (c v w : Timespec) → timespecadd_safe c v ≡ time w → absolute_value false v c ≡ ok w
unfolding absolute_value
absolute_value-relative c v w e = rw (absolute_value, e) refl

-- A new relative setting, whose old one is not asked for.
abbrev pub relative_request : Itimerspec → Request
relative_request new = record {
  is_abstime = false;
  is_cancel_on_set = false;
  new = new;
  wants_old = false;
}

module _ (t : TimerFd) (new : Itimerspec) (replies : Replies) (c : Timespec) where
  -- The timer once the setting is registered, and the timer that the setting leaves.
  abbrev registered_timer : (value : Timespec) → (calls : List KeventCall) → TimerFd
  registered_timer value calls = record t {
    it_value = value;
    it_interval = new.it_interval;
    timer_type = relative;
    is_cancel_on_set = false;
    is_abstime = false;
    calls = calls;
  }

  abbrev armed_timer :
      (value : Timespec) → (force_cancel : Bool) → (calls : List KeventCall) → TimerFd
  armed_timer value force_cancel calls = record (registered_timer value calls) {
    force_cancel = force_cancel;
    nr_expirations = 0;
  }

  arm_setting-relative :
      (value : Timespec) (calls : List KeventCall)
      → replies.clock_new false ≡ ok c
      → timespecadd_safe c new.it_value ≡ time value
      → timerfd_ctx_register_event t value c replies.kevent ≡ (record t { calls = calls }, ok tt)
      → arm_setting t (relative_request new) none replies ≡ (registered_timer value calls, ok tt)
  unfolding arm_setting new_time absolute_value timerfd_ctx_get_clocktime
  arm_setting-relative value calls at sum registered =
      then-ok t _ c _ at
      ∙ then-ok t _ value _ (absolute_value-relative c new.it_value value sum)
      ∙ ap
          (λ p. and_then p (λ t u. (
            record t {
              it_value = value;
              it_interval = new.it_interval;
              timer_type = relative;
              is_cancel_on_set = false;
              is_abstime = false;
            },
            ok tt,
          )))
          registered

  settime-armed :
      (s : TimerFd)
      → itimerspec_is_valid new ≡ true
      → time_eq new.it_value zero_time ≡ false
      → arm_setting t (relative_request new) none replies ≡ (s, ok tt)
      → timerfd_ctx_settime t (relative_request new) replies
        ≡ finish_setting s t.is_cancel_on_set none replies.offset
  unfolding timerfd_ctx_settime read_old
  settime-armed s valid nonzero armed =
      settled (itimerspec_is_valid new) (time_eq new.it_value zero_time) t s _ _ _ tt _ valid
        nonzero armed

  finish_setting-relative :
      (value : Timespec) (calls : List KeventCall)
      → (force_cancel : Bool) × (calls' : List KeventCall) × (finish_setting
            (registered_timer value calls)
            t.is_cancel_on_set
            none
            replies.offset
          ≡ (armed_timer value force_cancel calls', ok none))
  unfolding finish_setting timerfd_ctx_check_for_cancel
  finish_setting-relative value calls =
      either_on Finished (not t.is_realtime) (s, false) _ (λ h. (t.force_cancel, calls, refl))
        (λ h.
          either_on Finished (t.is_realtime && false) _ _ (λ h. absurd (never t.is_realtime h))
            (λ h. (false, (if t.force_cancel then delete_cancel ∷ calls else calls), refl)))
    where
      s : TimerFd
      s = record (registered_timer value calls) { nr_expirations = 0 }

      Finished : TimerFd × Bool → Type 0
      Finished (s', c) =
          (force_cancel : Bool) × (calls' : List KeventCall) × ◌≡◌
            {A = TimerFd × Outcome (Option Itimerspec)}
            (s', if c && t.is_cancel_on_set then fail ecanceled else ok none)
            (armed_timer value force_cancel calls', ok none)

  both_valid :
      timespec_is_valid new.it_value ≡ true
      → timespec_is_valid new.it_interval ≡ true
      → itimerspec_is_valid new ≡ true
  unfolding itimerspec_is_valid
  both_valid h h' = rw (h, h') refl

  -- A relative setting of a time above 0, without TFD_TIMER_CANCEL_ON_SET and without a pointer for
  -- the old setting, is accepted where the kqueue accepts it. A gettime before the new expiration
  -- time then returns the time that is left of the setting, exact to the nanosecond, and its
  -- interval; neither depends on steps of the clock or on the boot time. The times stay below
  -- int64_max seconds.
  pub settime_gettime :
      (clock : Clock) (now : Timespec)
      → IsTime new.it_value
      → timespec_is_valid new.it_interval ≡ true
      → 0 < nanoseconds new.it_value
      → IsTime c
      → IsTime now
      → nanoseconds c + nanoseconds new.it_value < int64_max * billion
      → replies.clock_new false ≡ ok c
      → replies.kevent ≡ accepted
      → clock false ≡ ok now
      → nanoseconds now < nanoseconds c + nanoseconds new.it_value
      → (t' : TimerFd) × (left : Timespec) × (timerfd_ctx_settime t (relative_request new) replies
          ≡ (t', ok none))
        × (timerfd_ctx_gettime t' clock
            ≡ (t', ok (record { it_value = left; it_interval = new.it_interval })))
        × (nanoseconds left + nanoseconds now ≡ nanoseconds c + nanoseconds new.it_value)
  unfolding timerfd_ctx_get_clocktime
  settime_gettime clock now vv vi positive vc vn room at accepts at' before =
      let nonzero : time_eq new.it_value zero_time ≡ false =
        time_eq-zero new.it_value vv.valid ∙ nonzero_of 0 (nanoseconds new.it_value) positive in
      elim (timespecadd_safe_exact c new.it_value vc.valid vv.valid) [
        | inl (over, e) ↦ absurd (omega (arith, over, room))
        | inr (value, e, valid, sum) ↦
            let vw : IsTime value = record { valid = valid; fits = omega (arith, sum, room) } in
            let (calls, registered) =
              register_event-accepted t value c vw vc (omega (arith, sum, positive)) in
            let (force_cancel, calls', finished) = finish_setting-relative value calls in
            let t' = armed_timer value force_cancel calls' in
            let armed =
              arm_setting-relative value calls at e
                (ap (timerfd_ctx_register_event t value c) accepts ∙ registered) in
            let set =
              settime-armed (registered_timer value calls) (both_valid vv.valid vi) nonzero armed in
            let shown =
              gettime-remaining t' clock now vw vi vn refl at' (omega (arith, before, sum)) in
            (
              t',
              timespecsub value now,
              set ∙ finished,
              shown,
              timespecsub-nanoseconds value now valid vn.valid (omega (arith, before, sum)) ∙ sum,
            )
      ]
