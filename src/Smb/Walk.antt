-- ===== src/Smb/Walk.antt =====
-- backend/internal/smbclient/smbclient.go: the walk of a share by several workers over a queue.
-- The mutex makes each queue operation one step; a step of the walk is one step of one worker.
pub mod Live
use findo.Prelude.{
  ℕ, zero, suc, ◌+◌, ◌-◌, ◌≡◌, Bool, true, false, Option, none, some, List, [], ◌∷◌, ◌++◌, ◌==◌,
  if◌then◌else◌, Text, codes, text_eq, ◌||◌,
}
use findo.Prelude.Int.{ℤ}
use findo.Smb.{Entry, to_slash_path}

-- The last item of the source's slice comes first here.
pub record DirQueue : Type 0 where
  pub items : List Text
  pub pending : ℕ
  pub closed : Bool

abbrev pub new_dir_queue : DirQueue
new_dir_queue = record { items = []; pending = 0; closed = false }

unfoldable pub push : Text → DirQueue → DirQueue
push dir q = record q { items = dir ∷ q.items; pending = suc q.pending }

-- What a call of pop finds: it waits, it learns that all is done, or it takes a directory.
pub data Pop : Type 0 where
  waiting drained : Pop
  popped : Text → DirQueue → Pop

abbrev pub pop_from : List Text → DirQueue → Pop
pop_from [] q = if q.closed then drained else waiting
pop_from (dir ∷ rest) q = popped dir (record q { items = rest })

unfoldable pub pop : DirQueue → Pop
pop q = pop_from q.items q

-- It is called once for a directory that was popped, when `pending` counts it.
unfoldable pub mark_done : DirQueue → DirQueue
mark_done q =
    let left = q.pending - 1 in
    record q { pending = left; closed = if left == 0 then true else q.closed }

-- os.FileInfo, as far as the walk reads it
pub record Info : Type 0 where
  pub name : Text
  pub is_dir : Bool
  pub size : ℕ
  pub mod_time : ℤ

abbrev pub smb_path_of : Text → Text → Text
smb_path_of dir name =
    if text_eq dir [] || text_eq dir (codes ".") then name else dir ++ b'\\' ∷ name

unfoldable pub entry_of : Text → Info → Entry
entry_of dir i = record {
  path = to_slash_path (smb_path_of dir i.name);
  name = i.name;
  is_dir = i.is_dir;
  size = i.size;
  mod_time = i.mod_time;
}

-- Where a worker is: at pop, at readDir, in the loop over what it listed, or returned.
pub data Worker : Type 0 where
  at_pop stopped : Worker
  listing : Text → Worker
  emitting : Text → List Info → Worker

-- What the workers share: the queue, the directories that failed, and the entries that fn was called
-- with, the last one first.
pub record Shared : Type 0 where
  pub queue : DirQueue
  pub errs : List Text
  pub entries : List Entry

abbrev pub after_pop : Pop → Shared → Option (Worker × Shared)
after_pop waiting s = none
after_pop drained s = some (stopped, s)
after_pop (popped dir q) s = some (listing dir, record s { queue = q })

abbrev pub after_list : Text → Option (List Info) → Shared → Option (Worker × Shared)
after_list dir none s = some (at_pop, record s { errs = dir ∷ s.errs; queue = mark_done s.queue })
after_list dir (some infos) s = some (emitting dir infos, s)

-- The next step of a worker, none if it waits or has returned. `read_dir` is the share's answer.
unfoldable pub work : (Text → Option (List Info)) → Worker → Shared → Option (Worker × Shared)
unfolding pop mark_done push entry_of
work read_dir stopped s = none
work read_dir at_pop s = after_pop (pop s.queue) s
work read_dir (listing dir) s = after_list dir (read_dir dir) s
work read_dir (emitting dir []) s = some (at_pop, record s { queue = mark_done s.queue })
work read_dir (emitting dir (i ∷ infos)) s = some (
  emitting dir infos,
  record s {
    entries = entry_of dir i ∷ s.entries;
    queue = if i.is_dir then push (smb_path_of dir i.name) s.queue else s.queue;
  },
)

abbrev pub at_start : ℕ → List Worker
at_start zero = []
at_start (suc n) = at_pop ∷ at_start n

abbrev pub walk_concurrency : ℕ
walk_concurrency = 16

-- The states that a walk of `root` by `n` workers reaches, in any interleaving.
pub data Reached (read_dir : Text → Option (List Info)) (root : Text) (n : ℕ)
    : List Worker → Shared → Type 0 where
  begin :
      Reached read_dir root n
        (at_start n)
        (record { queue = push root new_dir_queue; errs = []; entries = [] })
  step :
      (before : List Worker) (w w' : Worker) (after : List Worker) (s s' : Shared)
      → Reached read_dir root n (before ++ w ∷ after) s
      → work read_dir w s ≡ some (w', s')
      → Reached read_dir root n (before ++ w' ∷ after) s'
