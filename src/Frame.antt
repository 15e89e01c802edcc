-- ===== src/Frame.antt =====
-- components/frame/frame.cpp and frame.h: the frame scheduler. The port to motion is a parameter:
-- what it reports of each column and which commands it accepts stay fixed within one call, since
-- the mailbox is drained by the control tick. Every operation returns the commands that it issued.
-- Times are milliseconds from 0; `posted_tick_ms_ == INT64_MIN` is `none`.
pub mod Duration
pub mod Lead
pub mod Commands
pub mod Convergence
mod Examples
use Duration.{move_duration_ms}
use lost_swan_firmware.Common.{
  ℕ, zero, suc, ◌+◌, ◌-◌, ◌*◌, ◌/◌, ◌≤◌, ◌<◌, Bool, true, false, not, ◌&&◌, ◌||◌, leb, ltb, ◌==◌,
  if◌then◌else◌, Option, none, some, List, [], ◌∷◌, ◌++◌, test_bit,
}
use lost_swan_firmware.Motion.Geometry.{ring_index_valid, ring_forward_distance, ring_slot_count}
use lost_swan_firmware.Motion.Axis.{AxisState, unhomed, homing, idle, moving, faulted}

pub record Col : Type 0 where
  pub state : AxisState
  pub index : Option ℕ
  pub dest_index : Option ℕ

pub record MotionPort : Type 0 where
  pub col : ℕ → Col
  pub go_ok : ℕ → ℕ → Bool
  pub spin_ok : ℕ → Bool

pub data Command : Type 0 where
  go : ℕ → ℕ → Command
  spin : ℕ → ℕ → ℕ → Command

-- What was commanded in this tick: nothing (`kNotPosted`), or a landing, `none` for a spin.
pub data Posted : Type 0 where
  not_posted : Posted
  posted : Option ℕ → Posted

pub record Timing : Type 0 where
  pub flaps_s : ℕ
  pub accel : ℕ

pub record Scheduler : Type 0 where
  pub timing : Timing
  pub desired : List ℕ
  pub have_desired : Bool
  pub pending : List ℕ
  pub have_pending : Bool
  pub start_at_ms : ℕ
  pub posted_cols : List Posted
  pub excluded : ℕ  -- uint8_t
  pub posted_tick_ms : Option ℕ

unfoldable pub known : Option ℕ → Option ℕ
unfolding ring_index_valid
known none = none
known (some i) = if ring_index_valid (some i) then some i else none

unfoldable pub flips_between : Option ℕ → ℕ → ℕ
flips_between none target = ring_slot_count - 1
flips_between (some from) target = ring_forward_distance from target

abbrev pub from_slot : AxisState → Col → Option ℕ
from_slot moving c = known c.dest_index
from_slot _ c = known c.index

unfoldable pub flips_from : Col → ℕ → ℕ
unfolding flips_between
flips_from c target = flips_between (from_slot c.state c) target

abbrev pub cannot_move : AxisState → Bool
cannot_move faulted = true
cannot_move unhomed = true
cannot_move _ = false

-- One round of the loop over the columns of `lead_ms`, from column `i`.
unfoldable pub lead_from : MotionPort → Timing → ℕ → ℕ → List ℕ → ℕ → ℕ
lead_from port t excluded i [] worst = worst
lead_from port t excluded i (want ∷ wants) worst =
    let d = move_duration_ms (flips_from (port.col i) want) t.flaps_s t.accel in
    let skip = test_bit excluded i || cannot_move (port.col i).state in
    lead_from port t excluded (suc i) wants
      (if skip then worst else if ltb worst d then d else worst)

unfoldable pub lead_ms : MotionPort → Scheduler → List ℕ → ℕ
lead_ms port s f = lead_from port s.timing s.excluded 0 f 0

abbrev pub slot_is : Option ℕ → ℕ → Bool
slot_is none want = false
slot_is (some i) want = i == want

abbrev pub is_idle : AxisState → Bool
is_idle idle = true
is_idle _ = false

abbrev pub is_moving : AxisState → Bool
is_moving moving = true
is_moving _ = false

-- `if (port_.go(i, want)) posted_[k] = want;`, with the call recorded.
unfoldable pub post_go : MotionPort → ℕ → ℕ → Posted → Posted × List Command
post_go port i want p = (if port.go_ok i want then posted (some want) else p, go i want ∷ [])

-- The body of the loop of `issue` for a column that is not excluded.
unfoldable pub issue_col : MotionPort → ℕ → ℕ → Posted → Posted × List Command
unfolding post_go
issue_col port i want (posted landing) =
    if slot_is landing want then (posted landing, []) else post_go port i want (posted landing)
issue_col port i want not_posted =
    let c = port.col i in
    let moving_there = is_moving c.state && slot_is c.dest_index want in
    let showing = is_idle c.state && slot_is c.index want in
    if moving_there || showing then (not_posted, []) else post_go port i want not_posted

-- The body of the convergence loop of `tick`.
unfoldable pub converge_col : MotionPort → ℕ → ℕ → Posted → Posted × List Command
unfolding post_go
converge_col port i want (posted landing) = (posted landing, [])
converge_col port i want not_posted =
    let c = port.col i in
    if is_idle c.state && not (slot_is c.index want)
    then post_go port i want not_posted
    else (not_posted, [])

-- A loop over the columns from column `i` that skips the excluded ones.
unfoldable pub each_col :
    (ℕ → ℕ → Posted → Posted × List Command)
    → ℕ
    → ℕ
    → List ℕ
    → List Posted
    → List Posted × List Command
each_col body excluded i (want ∷ wants) (p ∷ ps) =
    let (p', cs) = body i want p in
    let (ps', rest) = each_col body excluded (suc i) wants ps in
    if test_bit excluded i then (p ∷ ps', rest) else (p' ∷ ps', cs ++ rest)
each_col body excluded i [] ps = (ps, [])
each_col body excluded i (want ∷ wants) [] = ([], [])

unfoldable pub issue : MotionPort → Scheduler → List ℕ → Scheduler × List Command
issue port s f =
    let (ps, cs) = each_col (issue_col port) s.excluded 0 f s.posted_cols in
    (record s { posted_cols = ps }, cs)

unfoldable pub converge : MotionPort → Scheduler → List ℕ → Scheduler × List Command
converge port s f =
    let (ps, cs) = each_col (converge_col port) s.excluded 0 f s.posted_cols in
    (record s { posted_cols = ps }, cs)

abbrev pub none_posted : List Posted
none_posted = not_posted ∷ not_posted ∷ not_posted ∷ not_posted ∷ not_posted ∷ []

unfoldable pub note_tick : Scheduler → ℕ → Scheduler
note_tick s now_ms =
    if slot_is s.posted_tick_ms now_ms
    then s
    else record s { posted_tick_ms = some now_ms; posted_cols = none_posted }

-- `start > now_ms` fails where the lead is longer than the time left, also below 0.
unfoldable pub show : MotionPort → Scheduler → List ℕ → ℕ → ℕ → Scheduler × List Command
show port s f now_ms land_at_ms =
    let t = note_tick s now_ms in
    let start = land_at_ms - lead_ms port t f in
    let scheduled = record t { pending = f; have_pending = true; start_at_ms = start } in
    let shown = record t { have_pending = false; desired = f; have_desired = true } in
    if ltb now_ms land_at_ms && ltb now_ms start then (scheduled, []) else issue port shown f

unfoldable pub spin_col : MotionPort → ℕ → ℕ → ℕ → ℕ → Posted → Posted × List Command
spin_col port flaps_s seconds i want p =
    (if port.spin_ok i then posted none else p, spin i flaps_s seconds ∷ [])

abbrev pub five_columns : List ℕ
five_columns = 0 ∷ 0 ∷ 0 ∷ 0 ∷ 0 ∷ []

-- The frame passed to `each_col` only counts the columns here.
unfoldable pub spin_all : MotionPort → Scheduler → ℕ → ℕ → ℕ → Scheduler × List Command
spin_all port s flaps_s seconds now_ms =
    let t = note_tick s now_ms in
    let (ps, cs) =
      each_col (spin_col port flaps_s seconds) t.excluded 0 five_columns t.posted_cols in
    (record t { have_pending = false; posted_cols = ps }, cs)

unfoldable pub start_pending : MotionPort → Scheduler → ℕ → Scheduler × List Command
start_pending port t now_ms =
    let due = record t { have_pending = false; desired = t.pending; have_desired = true } in
    if t.have_pending && leb t.start_at_ms now_ms then issue port due t.pending else (t, [])

unfoldable pub tick : MotionPort → Scheduler → ℕ → Scheduler × List Command
tick port s now_ms =
    let (t, cs) = start_pending port (note_tick s now_ms) now_ms in
    let (u, ds) = converge port t t.desired in if t.have_desired then (u, cs ++ ds) else (t, cs)

unfoldable pub cancel_pending : Scheduler → Scheduler
cancel_pending s = record s { have_pending = false }

unfoldable pub settled_from : MotionPort → ℕ → ℕ → List ℕ → Bool
settled_from port excluded i [] = true
settled_from port excluded i (want ∷ wants) =
    let c = port.col i in
    (test_bit excluded i || is_idle c.state && slot_is c.index want)
    && settled_from port excluded (suc i) wants

unfoldable pub settled : MotionPort → Scheduler → Bool
settled port s = s.have_desired && not s.have_pending && settled_from port s.excluded 0 s.desired
