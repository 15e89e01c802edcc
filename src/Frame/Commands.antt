-- ===== src/Frame/Commands.antt =====
-- Which commands the frame scheduler issues (components/frame/frame.cpp).
use lost_swan_firmware.Common.{
  ℕ, suc, ◌-◌, ◌≡◌, subst, ◌∙◌, refl, true, false, ◌&&◌, arith, List, [], ◌∷◌, inl, inr, Bool-cases,
  test_bit, ltb, leb, All, All-append,
}
use lost_swan_firmware.Frame.{
  MotionPort, Command, go, spin, Posted, not_posted, posted, Scheduler, issue_col, converge_col,
  each_col, issue, converge, note_tick, show, spin_col, spin_all, five_columns, start_pending, tick,
  lead_ms,
}

abbrev pub column_of : Command → ℕ
column_of (go i want) = i
column_of (spin i flaps_s seconds) = i

-- A command goes to a column that is not excluded.
abbrev pub Allowed : ℕ → Command → Type 0
Allowed excluded c = test_bit excluded (column_of c) ≡ false

-- A loop body that only commands its own column.
abbrev Own : (ℕ → ℕ → Posted → Posted × List Command) → Type 0
Own body = (i want : ℕ) (p : Posted) → All (λ c. column_of c ≡ i) (body i want p).1

issue_col-Own : (port : MotionPort) → Own (issue_col port)
unfolding issue_col
issue_col-Own port i want (posted landing) = ground arith
issue_col-Own port i want not_posted = ground arith

converge_col-Own : (port : MotionPort) → Own (converge_col port)
unfolding converge_col
converge_col-Own port i want (posted landing) = tt
converge_col-Own port i want not_posted = ground arith

spin_col-Own : (port : MotionPort) (flaps_s seconds : ℕ) → Own (spin_col port flaps_s seconds)
unfolding spin_col
spin_col-Own port flaps_s seconds i want p = (refl, tt)

own-Allowed :
    (excluded i : ℕ) (cs : List Command)
    → test_bit excluded i ≡ false
    → All (λ c. column_of c ≡ i) cs
    → All (Allowed excluded) cs
own-Allowed excluded i [] free own = tt
own-Allowed excluded i (c ∷ cs) free own = (rw (own.0) free, own-Allowed excluded i cs free own.1)

each_col-Allowed :
    (body : ℕ → ℕ → Posted → Posted × List Command) (excluded i : ℕ) (f : List ℕ) (ps : List Posted)
    → Own body
    → All (Allowed excluded) (each_col body excluded i f ps).1
unfolding each_col
each_col-Allowed body excluded i [] ps own = tt
each_col-Allowed body excluded i (want ∷ wants) [] own = tt
each_col-Allowed body excluded i (want ∷ wants) (p ∷ ps) own =
    let rest = each_col-Allowed body excluded (suc i) wants ps own in
    elim (Bool-cases (test_bit excluded i)) [
      | inl out ↦ rw out rest
      | inr free ↦ rw free (All-append _ _ _ (own-Allowed excluded i _ free (own i want p)) rest)
    ]

issue-Allowed :
    (port : MotionPort) (s : Scheduler) (f : List ℕ) → All (Allowed s.excluded) (issue port s f).1
unfolding issue
issue-Allowed port s f =
    each_col-Allowed (issue_col port) s.excluded 0 f s.posted_cols (issue_col-Own port)

noted : (s : Scheduler) (now : ℕ) → (note_tick s now).excluded ≡ s.excluded
unfolding note_tick
noted s now = ground arith

-- A shown frame commands no column that is excluded.
pub show-Allowed :
    (port : MotionPort) (s : Scheduler) (f : List ℕ) (now land_at : ℕ)
    → All (Allowed s.excluded) (show port s f now land_at).1
unfolding show
show-Allowed port s f now land_at =
    let t = note_tick s now in
    let shown = record t { have_pending = false; desired = f; have_desired = true } in
    let start = land_at - lead_ms port t f in
    elim (Bool-cases (ltb now land_at && ltb now start)) [
      | inl waits ↦ rw waits tt
      | inr starts ↦ rw starts (
          subst (λ m. All (Allowed m) (issue port shown f).1) (noted s now)
            (issue-Allowed port shown f))
    ]

-- Neither does the spin of all columns.
pub spin_all-Allowed :
    (port : MotionPort) (s : Scheduler) (flaps_s seconds now : ℕ)
    → All (Allowed s.excluded) (spin_all port s flaps_s seconds now).1
unfolding spin_all
spin_all-Allowed port s flaps_s seconds now =
    subst (λ m. All (Allowed m) (spin_all port s flaps_s seconds now).1) (noted s now)
      (each_col-Allowed (spin_col port flaps_s seconds) (note_tick s now).excluded 0 five_columns
        (note_tick s now).posted_cols (spin_col-Own port flaps_s seconds))

start_pending-Allowed :
    (port : MotionPort) (t : Scheduler) (now : ℕ)
    → All (Allowed t.excluded) (start_pending port t now).1
      × ((start_pending port t now).0.excluded ≡ t.excluded)
unfolding start_pending issue
start_pending-Allowed port t now =
    let due = record t { have_pending = false; desired = t.pending; have_desired = true } in
    elim (Bool-cases (t.have_pending && leb t.start_at_ms now)) [
      | inl starts ↦ rw starts (
        each_col-Allowed (issue_col port) t.excluded 0 t.pending t.posted_cols (issue_col-Own port),
        refl,
      )
      | inr waits ↦ rw waits (tt, refl)
    ]

-- Nor does a tick, whether it starts a pending frame or brings a column back to its frame.
pub tick-Allowed :
    (port : MotionPort) (s : Scheduler) (now : ℕ) → All (Allowed s.excluded) (tick port s now).1
unfolding tick converge
tick-Allowed port s now =
    let (t, cs) = start_pending port (note_tick s now) now in
    let (allowed, kept) = start_pending-Allowed port (note_tick s now) now in
    let first : All (Allowed s.excluded) cs =
      subst (λ m. All (Allowed m) cs) (noted s now) allowed in
    let (ps, ds) = each_col (converge_col port) t.excluded 0 t.desired t.posted_cols in
    let second : All (Allowed s.excluded) ds =
      subst (λ m. All (Allowed m) ds) (kept ∙ noted s now)
        (each_col-Allowed (converge_col port) t.excluded 0 t.desired t.posted_cols
          (converge_col-Own port)) in
    elim (Bool-cases t.have_desired) [
      | inl wanted ↦ rw wanted (All-append (Allowed s.excluded) cs ds first second)
      | inr nothing ↦ rw nothing first
    ]
