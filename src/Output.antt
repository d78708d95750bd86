-- ===== src/Output.antt =====
-- crates/core/src/output.rs: a file that several processes append to, each through a buffer of its own.
-- The file is its bytes; the lock and the writes of the system are outside, and an `Attempt` tells how
-- they end.
pub mod Shared
use trace.Prelude.{
  Bool, List, Option, [], false, if◌then◌else◌, length, none, not, some, take, true, ℕ, ◌&&◌, ◌++◌,
  ◌==◌,
}

pub record SharedFile : Type 0 where
  pub buf : List ℕ

-- Whether the lock is taken, and how many bytes reach the file before a write fails.
pub data Attempt : Type 0 where
  no_lock : Attempt
  cut_off : ℕ → Attempt
  whole : Attempt

-- `open`, with what `File::create` and `OpenOptions::open` give; the file is there behind it.
unfoldable pub open_shared : Bool → Bool → Bool → List ℕ → Option SharedFile × List ℕ
open_shared truncate creates opens file =
    if truncate && not creates
    then (none, file)
    else (if opens then some (record { buf = [] }) else none, if truncate then [] else file)

unfoldable pub create : Bool → Bool → List ℕ → Option SharedFile × List ℕ
unfolding open_shared
create creates opens file = open_shared true creates opens file

unfoldable pub append : Bool → List ℕ → Option SharedFile × List ℕ
unfolding open_shared
append opens file = open_shared false true opens file

abbrev written : Attempt → List ℕ → SharedFile → Bool × List ℕ × SharedFile
written no_lock file s = (false, file, s)
written (cut_off n) file s = (false, file ++ take n s.buf, record s { buf = [] })
written whole file s = (true, file ++ s.buf, record s { buf = [] })

-- `commit`: whether it succeeds, the file, and the buffer.
unfoldable pub commit : Attempt → List ℕ → SharedFile → Bool × List ℕ × SharedFile
commit a file s = if length s.buf == 0 then (true, file, s) else written a file s

unfoldable pub write : List ℕ → SharedFile → SharedFile
write bytes s = record s { buf = s.buf ++ bytes }

-- `flush`; `flushes` is whether `File::flush` succeeds.
unfoldable pub flush : Attempt → Bool → List ℕ → SharedFile → Bool × List ℕ × SharedFile
unfolding commit
flush a flushes file s = let (ok, file', s') = commit a file s in (ok && flushes, file', s')

-- `Drop`, after which there is no buffer.
unfoldable pub drop_file : Attempt → List ℕ → SharedFile → List ℕ
unfolding commit
drop_file a file s = let (_, file', _) = commit a file s in file'
