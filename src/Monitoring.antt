-- ===== src/Monitoring.antt =====
-- crates/py/src/monitoring.rs: a callback of the interpreter becomes an event of the queue.
-- What a call reads from outside is a `Moment`. A reference to a code object is its address; the
-- attributes of the code object and the name of the thread come from Python.
pub mod Caches
pub mod Coherence
pub mod Refused
pub mod Record
pub mod Tool
use Prim.Native.String.{String}
use trace.Prelude.{
  ℕ, ◌-◌, ◌^◌, Bool, true, false, not, ◌&&◌, ◌||◌, Option, none, some, ltb, ◌==◌, if◌then◌else◌,
}
use trace.Event.{EventKind}
use trace.Batch.{EventBatch}
use trace.Spsc.{Spsc}
use trace.Sink.{CodeInfo}
use trace.Codecache.{CodeCache, empty_cache, get, put}
use trace.Intern.{Interner, lookup, insert}
use trace.Registry.{ThreadRegistry, ensure}
use trace.Tls.{Hot, Thread, not_cached}
use trace.Queue.{EventQueue, push_with_ctx}

abbrev pub retry_limit : ℕ
retry_limit = 64

pub record State (Chan : Type 0) : Type 0 where
  pub run : ℕ
  pub queue : EventQueue Chan
  pub interner : Interner
  pub threads : ThreadRegistry

-- A reading of the counter, a reading through the clock of the queue, the generation of the code
-- watcher, the thread's id for the system and its name, and the code object that is called.
pub record Moment : Type 0 where
  pub counter : ℕ
  pub raw : ℕ
  pub generation : ℕ
  pub os_tid : ℕ
  pub thread_name : String
  pub key : ℕ
  pub info : CodeInfo

-- The thread's code cache is thrown away, and its `Hot` begins anew, where the run is another one.
unfoldable pub enter_run : ℕ → Hot → CodeCache → Hot × CodeCache
enter_run run hot codes =
    if not (hot.queue_id == run)
    then (
      record hot { last_code_key = not_cached; ensured = false; name_retries = retry_limit },
      empty_cache,
    )
    else (hot, codes)

unfoldable pub enter_generation : ℕ → Hot → CodeCache → Hot × CodeCache
enter_generation generation hot codes =
    if not (hot.code_gen == generation)
    then (record hot { code_gen = generation }, empty_cache)
    else (hot, codes)

unfoldable pub enter_thread : ℕ → Hot → Hot
enter_thread os_tid hot = if hot.tid == 2 ^ 32 - 1 then record hot { tid = os_tid } else hot

unfoldable pub ensure_name : String → Hot → ThreadRegistry → Hot × ThreadRegistry
ensure_name thread_name hot threads =
    if not hot.ensured && ltb 0 hot.name_retries
    then (let (done, after) = ensure hot.tid thread_name threads in
        (record hot { name_retries = hot.name_retries - 1; ensured = done }, after))
    else (hot, threads)

-- `state.interner.lookup(key).or_else(..)`
interned : Option ℕ → ℕ → CodeInfo → ℕ → Interner → Option ℕ × Interner
interned (some id) key info floor i = (some id, i)
interned none key info floor i = insert key info floor i

-- What goes into the cache: nothing where the id was there already, or where there is none.
cached : ℕ → Option ℕ → CodeCache → CodeCache
cached key none codes = codes
cached key (some id) codes = put key id codes

pub find_id : Option ℕ → ℕ → CodeInfo → ℕ → CodeCache → Interner → Option ℕ × CodeCache × Interner
unfolding interned cached
find_id (some id) key info floor codes i = (some id, codes, i)
find_id none key info floor codes i =
    let (result, j) = interned (lookup key i) key info floor i in
    (result, cached key result codes, j)

remember : ℕ → Option ℕ → Hot → Hot
remember key none hot = hot
remember key (some id) hot = record hot {
  last_code_id = id;
  last_code_key = if hot.ensured || hot.name_retries == 0 then key else not_cached;
}

module _ {Chan : Type 0} where
  unfoldable pub resolve_cold :
      Moment → State Chan → Hot → CodeCache → Option ℕ × Hot × CodeCache × State Chan
  unfolding find_id remember
  resolve_cold m state hot codes =
      let (hot1, codes1) = enter_run state.run hot codes in
      let (hot2, codes2) = enter_generation m.generation hot1 codes1 in
      let (hot3, threads) = ensure_name m.thread_name (enter_thread m.os_tid hot2) state.threads in
      let (result, codes3, interner) =
        find_id (get m.key codes2) m.key m.info state.queue.recycle_floor codes2 state.interner in
      (
        result,
        remember m.key result hot3,
        codes3,
        record state { interner = interner; threads = threads },
      )

  -- The code id of a call, by the fast test or by `resolve_cold`.
  unfoldable pub resolve :
      Moment → State Chan → Hot → CodeCache → Option ℕ × Hot × CodeCache × State Chan
  resolve m state hot codes =
      if hot.last_code_key == m.key && hot.queue_id == state.run && hot.code_gen == m.generation
      then (some hot.last_code_id, hot, codes, state)
      else resolve_cold m state hot codes

module _ (R : Spsc EventBatch) where
  open R use {Chan}

  -- `none` is a panic of the queue.
  pushed :
      Moment
      → EventKind
      → ℕ
      → Option ℕ × Hot × CodeCache × State Chan
      → Thread
      → Option (State Chan × Thread × CodeCache)
  pushed m kind ticks (none, hot, codes, state) t = some (state, record t { hot = hot }, codes)
  pushed m kind ticks (some code_id, hot, codes, state) t =
      elim (push_with_ctx R state.run ticks hot.tid code_id kind state.queue
        (record t { hot = hot })) [
          | none ↦ none
          | some (queue, u) ↦ some (record state { queue = queue }, u, codes)
        ]

  unfoldable pub record_event :
      Moment
      → EventKind
      → State Chan
      → Thread
      → CodeCache
      → Option (State Chan × Thread × CodeCache)
  unfolding pushed
  record_event m kind state t codes =
      let ticks = if t.hot.clock_direct then m.counter else m.raw in
      pushed m kind ticks (resolve m state t.hot codes) t
