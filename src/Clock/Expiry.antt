-- ===== src/Clock/Expiry.antt =====
-- The loop of the expiry in timer.c: each timer that has expired goes off once, and starts again.
use fuzzware_emulator.Prelude.{
  ℕ, zero, suc, ◌<◌, ◌≡◌, ◌≢◌, refl, sym, ap, ◌∙◌, true, false, ◌&&◌, Option, none, some, List, [],
  ◌∷◌, ok, arith, ◌==◌, if◌then◌else◌, Bool-cases, inl, inr, has, length,
}
use fuzzware_emulator.Engine.{Engine}
use fuzzware_emulator.Timer.{TimerState, set_timer}
use fuzzware_emulator.Timer.Chain.{IsQueue}
use fuzzware_emulator.Timer.Insert.{Sorted, insert_sorted, has-insert_sorted}
use fuzzware_emulator.Timer.Order.{
  Due, Small, SameTickers, ticker-same, Sorted-same, Small-same, Due-of_Sorted, Due-mono,
  Sorted-insert_sorted, Small-insert_sorted, Sorted-tail, Sorted-on, update-SameOn, Small-on,
}
use fuzzware_emulator.Timer.Back.{SortedBack}
use fuzzware_emulator.Nvic.State.{NvicConfig}
use fuzzware_emulator.Machine.{Machine}
use fuzzware_emulator.Clock.{ding, ding_expired}
use fuzzware_emulator.Clock.Lists.{
  expired-none, has-expired, Due-at, expired-back, IsReady-back, insert_sorted-ne-nil,
}
use fuzzware_emulator.Clock.Fired.{
  IsReady, expired, reloaded, goes_off, all_go_off, all_go_off-KeepsTimers, all_go_off-same,
  ding-front,
}

pub ok-injective : {A : Type 0} {x y : A} → ok x ≡ ok y → x ≡ y
ok-injective h = cc

module _ {Uc : Type 0} (e : Engine Uc) (config : NvicConfig) (file : Option (List ℕ)) where
  -- The outcome of the loop.
  pub record Expired (m : Machine Uc) (is : List ℕ) (c : ℕ) (m' : Machine Uc) : Type 0 where
    pub order : List ℕ
    pub queue : IsQueue m'.timers order
    pub members : (j : ℕ) → has j order ≡ has j is
    pub sorted : Sorted m'.timers.timers order
    pub small : Small m'.timers.timers order
    pub head : m'.timers.active_head ≡ some c
    pub later : 0 < (m'.timers.timers c).ticker_val
    pub timer :
        (j : ℕ)
        → record (m'.timers.timers j) { next = none } ≡ (
            if has j is && ((m.timers.timers j).ticker_val == 0)
            then record (reloaded (m.timers.timers j)) { next = none }
            else record (m.timers.timers j) { next = none })
    pub rest :
        record m'.timers { timers = m.timers.timers; active_head = m.timers.active_head } ≡ m.timers
    pub gone_off :
        all_go_off e config file m.timers.timers (expired m.timers.timers 0 is) m
        ≡ ok (record m' { timers = m.timers })

  settled :
      (i : ℕ) (is : List ℕ) (m : Machine Uc)
      → IsQueue m.timers (i ∷ is)
      → Sorted m.timers.timers (i ∷ is)
      → Small m.timers.timers (i ∷ is)
      → ((m.timers.timers i).ticker_val == 0) ≡ false
      → Expired m (i ∷ is) i m
  settled i is m q sorted small more =
      let due : Due m.timers.timers 1 (i ∷ is) =
        Due-mono m.timers.timers 1 (m.timers.timers i).ticker_val (i ∷ is) (ground (arith, more))
          (Due-of_Sorted m.timers.timers i is sorted) in
      record {
        order = i ∷ is;
        queue = q;
        members = λ j. refl;
        sorted = sorted;
        small = small;
        head = q.chain.0;
        later = ground (arith, more);
        timer = λ j. ground (arith, Due-at m.timers.timers 1 j (i ∷ is) due);
        rest = refl;
        gone_off = rw (expired-none m.timers.timers (i ∷ is) due) refl;
      }

  -- The rest of the loop, behind one timer that has gone off.
  gone_on :
      (i c : ℕ) (is : List ℕ) (m r m' : Machine Uc) (u : TimerState)
      → has i is ≡ false
      → ((j : ℕ) → has j (i ∷ is) ≡ true → IsReady (m.timers.timers j))
      → ((m.timers.timers i).ticker_val == 0) ≡ true
      → SortedBack (set_timer m.timers i (reloaded (m.timers.timers i))) i is u
      → goes_off e config file (m.timers.timers i) m ≡ ok r
      → r.timers ≡ m.timers
      → Expired
          (record r { timers = u })
          (insert_sorted (set_timer m.timers i (reloaded (m.timers.timers i))).timers i is)
          c
          m'
      → Expired m (i ∷ is) c m'
  gone_on i c is m r m' u out ready zero_at back went kept x =
      let ts = m.timers.timers in
      let s = set_timer m.timers i (reloaded (ts i)) in
      let here = ready i (ground arith) in
      let same_u : SameTickers s.timers u.timers =
        λ j. ticker-same s.timers u.timers j back.values in
      let list = expired-back ts u.timers i is out here.reloads same_u in
      let (r2, run2, kept2, any2) =
        all_go_off-KeepsTimers e config file ts (expired ts 0 is) r
          (λ j h. ready j (ground (arith, has-expired ts 0 j is h))) in
      let fields : (j : ℕ)
          → ((u.timers j).irq_num ≡ (ts j).irq_num)
            × ((u.timers j).trigger_callback ≡ (ts j).trigger_callback) =
        λ j. (ground (arith, back.values j), ground (arith, back.values j)) in
      let from_u : record r2 { timers = u } ≡ record m' { timers = u } = ok-injective (
        sym (any2 u)
        ∙ sym (
            all_go_off-same e config file ts u.timers (expired ts 0 is) (record r { timers = u })
              fields)
        ∙ ap (λ L. all_go_off e config file u.timers L (record r { timers = u })) (sym list)
        ∙ x.gone_off) in
      record {
        order = x.order;
        queue = x.queue;
        members = λ j. ground (arith, x.members j, has-insert_sorted s.timers i j is);
        sorted = x.sorted;
        small = x.small;
        head = x.head;
        later = x.later;
        timer = λ j. elim (Bool-cases (j == i)) [
          | inl at_i ↦ ground (
            arith,
            at_i,
            zero_at,
            out,
            here.reloads,
            x.timer j,
            back.values j,
            has-insert_sorted s.timers i j is,
          )
          | inr other ↦
              ground (arith, other, x.timer j, back.values j, has-insert_sorted s.timers i j is)
        ];
        rest =
            ap (λ (z : TimerState). record z { timers = ts; active_head = m.timers.active_head })
              x.rest
            ∙ ap (λ (z : TimerState). record z { timers = ts }) back.rest;
        gone_off =
            rw (zero_at, went, run2)
              (ap ok (
                ap (λ (z : TimerState). record r2 { timers = z }) (kept2 ∙ kept)
                ∙ ap (λ (z : Machine Uc). record z { timers = m.timers }) from_u));
      }

  ding_expired-again :
      (k i : ℕ) (m m1 : Machine Uc)
      → m.timers.active_head ≡ some i
      → ((m.timers.timers i).ticker_val == 0) ≡ true
      → ding e config file i m ≡ ok m1
      → ding_expired e config file (suc k) m.timers.active_head m
        ≡ ding_expired e config file k m1.timers.active_head m1
  unfolding ding_expired
  ding_expired-again k i m m1 head gone dings =
      ap (λ p. ding_expired e config file (suc k) p m) head ∙ rw (ding_expired, gone, dings) refl

  -- The loop ends: with each timer that goes off, one fewer has expired.
  pub ding_expired-Expired :
      (k : ℕ) (is : List ℕ) (m : Machine Uc)
      → is ≢ []
      → length (expired m.timers.timers 0 is) < k
      → IsQueue m.timers is
      → Sorted m.timers.timers is
      → Small m.timers.timers is
      → ((j : ℕ) → has j is ≡ true → IsReady (m.timers.timers j))
      → (c : ℕ) × (m' : Machine Uc) × (ding_expired e config file k m.timers.active_head m
          ≡ ok (c, m'))
        × Expired m is c m'
  unfolding ding_expired
  ding_expired-Expired k [] m some_timer fuel q sorted small ready = absurd (some_timer refl)
  ding_expired-Expired zero (i ∷ is) m some_timer fuel q sorted small ready =
      absurd (omega (arith, fuel))
  ding_expired-Expired (suc k) (i ∷ is) m some_timer fuel q sorted small ready =
      let ts = m.timers.timers in
      elim (Bool-cases ((ts i).ticker_val == 0)) [
        | inr more ↦ (
          i,
          m,
          ap (λ p. ding_expired e config file (suc k) p m) q.chain.0 ∙ rw (ding_expired, more) refl,
          settled i is m q sorted small more,
        )
        | inl gone ↦
            (let (u, r, dings, back, went, kept) =
                ding-front e config file i is m q (ready i (ground arith)) in
              let s = set_timer m.timers i (reloaded (ts i)) in
              let js = insert_sorted s.timers i is in
              let here = ready i (ground arith) in
              let same_u : SameTickers s.timers u.timers =
                λ j. ticker-same s.timers u.timers j back.values in
              let on_rest = update-SameOn ts i (reloaded (ts i)) is q.distinct.0 in
              let list = expired-back ts u.timers i is q.distinct.0 here.reloads same_u in
              let (c, m', run, x) =
                ding_expired-Expired k js (record r { timers = u })
                  (insert_sorted-ne-nil s.timers i is) (ground (arith, fuel, gone, list)) back.queue
                  (Sorted-same s.timers u.timers js same_u (
                    Sorted-insert_sorted s.timers i is
                      (Sorted-on ts s.timers is on_rest (Sorted-tail ts i is sorted))))
                  (Small-same s.timers u.timers js same_u (
                    Small-insert_sorted s.timers i is (ground (arith, here.small))
                      (Small-on ts s.timers is on_rest small.1)))
                  (λ j h.
                    IsReady-back ts u.timers i j back.values
                      (ready j (ground (arith, h, has-insert_sorted s.timers i j is)))) in
              (
                c,
                m',
                ding_expired-again k i m (record r { timers = u }) q.chain.0 gone dings ∙ run,
                gone_on i c is m r m' u q.distinct.0 ready gone back went kept x,
              ))
      ]
