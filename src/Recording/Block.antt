-- ===== src/Recording/Block.antt =====
-- The messages of one snapshot block of crates/py/src/recording.rs, over any sequence of calls.
use Prim.Native.String.{String}
use trace.Recorder.Control.{Control, opened, dump_window}
use trace.Recording
use trace.Recording.{Stage, ready, open_at, over, Running, not_running, streams, records, Result}
use trace.Prelude.{List, Option, [], refl, true, ℕ, ◌++◌, ◌∷◌, ◌≡◌, ◌⊎◌}
use trace.Recording.{Running, World, Stage, open_at, SnapshotBlock}
use trace.Prelude.{false, inl, inr, length, none, some}

-- A call of one of the two methods.
pub data Call : Type 0 where
  entering : Running → ℕ → Call
  exiting : Running → ℕ → Option (Option String) → Option String → Call

abbrev pub state_of : {A : Type 0} → Result A × World × SnapshotBlock → World × SnapshotBlock
state_of (result, w, b) = (w, b)

module _ (joined : String → String → String) where
  unfoldable pub call : Call → World × SnapshotBlock → World × SnapshotBlock
  call (entering running ticks) (w, b) = state_of (Recording.enter running ticks w b)
  call (exiting running ticks exc reply) (w, b) =
      state_of (Recording.exit joined running ticks exc reply w b)

  unfoldable pub calls : List Call → World × SnapshotBlock → World × SnapshotBlock
  unfolding call
  calls [] state = state
  calls (c ∷ cs) state = calls cs (call c state)

  -- Where the block stands, by the messages that it has sent behind those of others.
  abbrev pub Sent : List Control → Stage → List Control → Type 0
  Sent earlier ready sent = sent ≡ earlier
  Sent earlier (open_at id start cell) sent = sent ≡ earlier ++ opened id start ∷ []
  Sent earlier over sent =
      (id start : ℕ) × ((sent ≡ earlier ++ opened id start ∷ [])
        ⊎ ((end : ℕ) × (reason : String) × (sent
              ≡ (earlier ++ opened id start ∷ []) ++ dump_window id start end reason true ∷ [])))

  abbrev Follows : List Control → World × SnapshotBlock → Type 0
  Follows earlier (w, b) = Sent earlier b.stage w.sent

  entered-Sent :
      (earlier : List Control) (running : Running) (ticks cell : ℕ) (w : World) (b : SnapshotBlock)
      → b.stage ≡ ready
      → w.sent ≡ earlier
      → Follows earlier
          (state_of (Recording.entered cell ticks (Recording.open_window running ticks w) b))
  unfolding Recording.open_window Recording.with_recorder Recording.next_window
  entered-Sent earlier not_running ticks cell w b at h = rw at h
  entered-Sent earlier streams ticks cell w b at h = rw at h
  entered-Sent earlier (records true) ticks cell w b at h = rw at h
  entered-Sent earlier (records false) ticks cell w b at h = rw h refl

  enter-Sent :
      (earlier : List Control) (running : Running) (ticks : ℕ) (w : World) (b : SnapshotBlock)
      → Follows earlier (w, b)
      → Follows earlier (state_of (Recording.enter running ticks w b))
  unfolding Recording.enter
  enter-Sent earlier running ticks w b h = go b.stage refl h
    where
      go :
          (stage : Stage)
          → b.stage ≡ stage
          → Sent earlier stage w.sent
          → Follows earlier (state_of (Recording.enter running ticks w b))
      go ready e h =
          rw (Recording.enter, e)
            (entered-Sent earlier running ticks (length w.written)
              (record w { written = w.written ++ none ∷ [] }) b e h)
      go (open_at id start cell) e h = rw (Recording.enter, e, e) h
      go over e h = rw (Recording.enter, e, e) h

  dump_block-Sent :
      (earlier : List Control) (running : Running) (ticks id start cell : ℕ)
      (reason : Option String) (reply : Option String) (w : World)
      → w.sent ≡ earlier ++ opened id start ∷ []
      → Sent earlier over
          ((Recording.dump_block running ticks reason reply (id, start, cell) w).1).sent
  unfolding Recording.dump_block Recording.with_recorder
  dump_block-Sent earlier running ticks id start cell none reply w h = (id, start, inl h)
  dump_block-Sent earlier not_running ticks id start cell (some reason) reply w h =
      (id, start, inl h)
  dump_block-Sent earlier streams ticks id start cell (some reason) reply w h = (id, start, inl h)
  dump_block-Sent earlier (records true) ticks id start cell (some reason) reply w h =
      (id, start, inl h)
  dump_block-Sent earlier (records false) ticks id start cell (some reason) none w h =
      (id, start, inr (ticks, reason, rw h refl))
  dump_block-Sent earlier (records false) ticks id start cell (some reason) (some path) w h =
      (id, start, inr (ticks, reason, rw h refl))

  exit-Sent :
      (earlier : List Control) (running : Running) (ticks : ℕ) (exc : Option (Option String))
      (reply : Option String) (w : World) (b : SnapshotBlock)
      → Follows earlier (w, b)
      → Follows earlier (state_of (Recording.exit joined running ticks exc reply w b))
  unfolding Recording.exit Recording.leave_stage
  exit-Sent earlier running ticks exc reply w b h = go b.stage refl h
    where
      go :
          (stage : Stage)
          → b.stage ≡ stage
          → Sent earlier stage w.sent
          → Follows earlier (state_of (Recording.exit joined running ticks exc reply w b))
      go ready e h = rw (Recording.exit, e) h
      go (open_at id start cell) e h =
          rw (Recording.exit, e) (dump_block-Sent earlier running ticks id start cell _ reply w h)
      go over e h = rw (Recording.exit, e) h

  calls-Sent :
      (earlier : List Control) (cs : List Call) (state : World × SnapshotBlock)
      → Follows earlier state
      → Follows earlier (calls cs state)
  unfolding calls call
  calls-Sent earlier [] state h = h
  calls-Sent earlier (entering running ticks ∷ cs) (w, b) h =
      calls-Sent earlier cs _ (enter-Sent earlier running ticks w b h)
  calls-Sent earlier (exiting running ticks exc reply ∷ cs) (w, b) h =
      calls-Sent earlier cs _ (exit-Sent earlier running ticks exc reply w b h)

  -- After any calls of a new block, in any order and however they end, what was sent is what was
  -- sent before them, or that and one `Open`, or that, one `Open`, and one `Dump` of the same window, with
  -- its id and its start; and the last only where the block is over.
  pub new-Sent :
      (cs : List Call) (w : World) (reason : String)
      → let (v, b) = calls cs (w, Recording.new reason) in Sent w.sent b.stage v.sent
  unfolding Recording.new
  new-Sent cs w reason = calls-Sent w.sent cs (w, Recording.new reason) refl
