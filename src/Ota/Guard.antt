-- ===== src/Ota/Guard.antt =====
-- firmware/src/ota_guard.h: class `OtaGuard`. Its NVS entry is a field of the model, `nvs`; what the
-- store and the bootloader answer are arguments, `Answers`; the calls of the boot control are a
-- trace, the newest call first. A null store answers `false` to everything, a null boot control to
-- `markValid` and `armConfirmDeadline`.
pub mod Check
pub mod Floor
pub mod Confirm
pub mod Rollback
use presence_platform.Prelude.{
  ℕ, Bool, true, false, not, ◌&&◌, ◌||◌, Option, none, some, List, [], ◌∷◌, Bytes, replicate,
  bytes_eq, ◌==◌, ltb, leb, if◌then◌else◌, sub_u32,
}
use presence_platform.Ota.Version.{parse_ota_version}

abbrev pub ota_state_magic : ℕ
ota_state_magic = 0x3141544F

pub record OtaPersistedState : Type 0 where
  pub magic : ℕ
  pub floor : ℕ
  pub has_pending : Bool
  pub pending_version : ℕ
  pub pending_sha : Bytes
  pub has_bad : Bool
  pub bad_sha : Bytes

-- `memset(&st_, 0, sizeof(st_)); st_.magic = kOtaStateMagic;`
abbrev pub fresh_state : OtaPersistedState
fresh_state = record {
  magic = ota_state_magic;
  floor = 0;
  has_pending = false;
  pending_version = 0;
  pending_sha = replicate 32 0;
  has_bad = false;
  bad_sha = replicate 32 0;
}

pub data OtaCandidate : Type 0 where
  accept running_unversioned bad_version not_newer below_floor known_bad unconfirmed : OtaCandidate

pub data OtaBootKind : Type 0 where
  normal awaiting_confirm rolled_back : OtaBootKind

-- `OtaBootControl`, and the writes of `OtaStateStore`, as they are called.
pub data BootCall : Type 0 where
  mark_valid rollback cancel_confirm_deadline restart_unconfirmed : BootCall
  arm_confirm_deadline : ℕ → BootCall
  save_state : OtaPersistedState → BootCall

pub record Answers : Type 0 where
  pub mark_ok : Bool
  pub arm_ok : Bool
  pub save_ok : Bool
  -- `save()` in `clearPending`, which may follow that of `notePending` in one update
  pub clear_ok : Bool

pub record OtaGuard : Type 0 where
  pub nvs : Option OtaPersistedState
  pub st : OtaPersistedState
  pub running : ℕ
  pub running_ok : Bool
  pub awaiting : Bool
  pub deadline_armed : Bool
  pub healthy : Bool
  pub rollback_requested : Bool
  pub boot_ms : ℕ
  pub timeout_ms : ℕ
  pub kind : OtaBootKind
  pub trace : List BootCall

unfoldable pub call : BootCall → OtaGuard → OtaGuard
call c g = record g { trace = c ∷ g.trace }

-- `save()`: a write that fails leaves the entry as it was.
unfoldable pub save : Answers → OtaGuard → Bool × OtaGuard
unfolding call
save a g =
    let g1 = call (save_state g.st) g in
    if a.save_ok then (true, record g1 { nvs = some g.st }) else (false, g1)

-- `store_->load(&loaded) && loaded.magic == kOtaStateMagic`, or the zeroed state.
unfoldable pub loaded_or_fresh : Option OtaPersistedState → OtaPersistedState
loaded_or_fresh none = fresh_state
loaded_or_fresh (some s) = if s.magic == ota_state_magic then s else fresh_state

-- `runningOk_ && v == running_`
unfoldable pub runs : OtaGuard → ℕ → Bool
runs g v = g.running_ok && v == g.running

-- `parseOtaVersion(runningVersion, &running_)`
unfoldable pub identify : Option ℕ → OtaGuard → OtaGuard
identify none g = record g { running_ok = false }
identify (some v) g = record g { running_ok = true; running = v }

-- The pending image becomes the bad one.
unfoldable pub condemn : OtaPersistedState → OtaPersistedState
condemn s = record s { has_bad = true; bad_sha = s.pending_sha }

unfoldable pub begin_rollback : Answers → OtaGuard → OtaGuard
unfolding runs condemn save
begin_rollback a g =
    if g.st.has_pending && not (runs g g.st.pending_version)
    then record ((save a (record g { st = record (condemn g.st) { has_pending = false } })).1) {
      kind = rolled_back;
    }
    else record g { kind = normal }

unfoldable pub begin_confirm : Answers → Bool → OtaGuard → OtaGuard
unfolding call
begin_confirm a pending_verify g =
    if pending_verify
    then record (call (arm_confirm_deadline g.timeout_ms) g) {
      awaiting = true;
      kind = awaiting_confirm;
      deadline_armed = a.arm_ok;
    }
    else record g { awaiting = false; deadline_armed = false }

unfoldable pub begin : Answers → Bytes → Bool → ℕ → OtaGuard → OtaGuard
unfolding loaded_or_fresh identify begin_rollback begin_confirm
begin a running_version pending_verify now_ms g =
    let g1 = identify (parse_ota_version running_version) (record g { boot_ms = now_ms }) in
    let g2 = begin_rollback a (record g1 { st = loaded_or_fresh g.nvs }) in
    record (begin_confirm a pending_verify g2) { healthy = false }

-- What `check` decides of a candidate whose version parses.
unfoldable pub check_version : OtaGuard → ℕ → Bytes → OtaCandidate
check_version g cand sha =
    if leb cand g.running
    then not_newer
    else if leb cand g.st.floor
    then below_floor
    else if g.st.has_bad && bytes_eq sha g.st.bad_sha
    then known_bad
    else accept

check_parsed : OtaGuard → Option ℕ → Bytes → OtaCandidate
check_parsed g none sha = bad_version
check_parsed g (some cand) sha = check_version g cand sha

unfoldable pub check : OtaGuard → Bytes → Bytes → OtaCandidate
unfolding check_parsed check_version
check g version sha =
    if not g.running_ok
    then running_unversioned
    else if g.awaiting
    then unconfirmed
    else check_parsed g (parse_ota_version version) sha

unfoldable pub note_parsed : Answers → Option ℕ → Bytes → OtaGuard → Bool × OtaGuard
note_parsed a none sha g = (false, g)
note_parsed a (some v) sha g =
    save a
      (record g { st = record g.st { has_pending = true; pending_version = v; pending_sha = sha } })

unfoldable pub note_pending : Answers → Bytes → Bytes → OtaGuard → Bool × OtaGuard
unfolding note_parsed save
note_pending a version sha g = note_parsed a (parse_ota_version version) sha g

unfoldable pub clear_pending : Answers → OtaGuard → OtaGuard
unfolding save
clear_pending a g =
    (save (record a { save_ok = a.clear_ok })
      (record g { st = record g.st { has_pending = false } })).1

-- `onHealthy` once the image is confirmed: raise the floor, forget the pending record.
unfoldable pub settle : Answers → OtaGuard → OtaGuard
unfolding runs save
settle a g =
    let raise = g.running_ok && ltb g.st.floor g.running in
    let done = g.st.has_pending && runs g g.st.pending_version in
    let s1 = (if raise then record g.st { floor = g.running } else g.st) in
    let s2 = (if done then record s1 { has_pending = false } else s1) in
    let g1 = record g { healthy = true; st = s2 } in if raise || done then (save a g1).1 else g1

-- `markValid` succeeded.
unfoldable pub confirmed : OtaGuard → OtaGuard
unfolding call
confirmed g =
    let g1 = record g { awaiting = false } in
    record (if g.deadline_armed then call cancel_confirm_deadline g1 else g1) {
      deadline_armed = false;
    }

unfoldable pub on_healthy : Answers → OtaGuard → OtaGuard
on_healthy a g =
    if g.healthy
    then g
    else if not g.awaiting
    then settle a g
    else if a.mark_ok
    then settle a (confirmed (call mark_valid g))
    else call mark_valid g

unfoldable pub tick : Answers → ℕ → OtaGuard → OtaGuard
unfolding runs condemn save call
tick a now_ms g =
    let g1 = record g { rollback_requested = true } in
    let g2 =
      (if g.st.has_pending && runs g g.st.pending_version
        then (save a (record g1 { st = condemn g.st })).1
        else g1) in
    if not g.awaiting || g.rollback_requested
    then g
    else if ltb (sub_u32 now_ms g.boot_ms) g.timeout_ms
    then g
    else call rollback g2

unfoldable pub on_confirm_deadline : OtaGuard → OtaGuard
unfolding call
on_confirm_deadline g = if g.awaiting then call restart_unconfirmed g else g
