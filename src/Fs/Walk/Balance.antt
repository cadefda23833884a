-- ===== src/Fs/Walk/Balance.antt =====
-- The references to the inodes along a path name.
use rv.Common.{ℕ, ◌≡◌, refl, arith, Option, none, some, Bool, List, [], ◌∷◌}
use rv.Kernel.Task.{Task}
use rv.Fs.FileDev.{Node}
use rv.Fs.Namei.{DotDot, as_dot, from_mount, as_entry}
use rv.Fs.Vfs.{Slot, Call, if_null, ◌>>◌}
use rv.Fs.Vfs.Turns.{
  Counts, bump, held, Turns, Turns-panic, Turns-if, Turns-when, Turns-pure, Turns-bind,
  Turns-bind-slot, Turns-null, Turns-held, Turns-update, Turns-up, Turns-on_volume, Turns-on_disk,
}
use rv.Fs.Table.{iput}
use rv.Fs.Table.Steady.{truncate_slot-Turns}
use rv.Fs.Table.Balance.{iput-Turns, iput-Turns_under, iget-balance, new_inode-Turns}
use rv.Fs.Walk.{
  Place, look_up, follow, mount_point, search_dir, entry_inode, enter, split, walk, walk_from,
  walk_path, get_dir, dir_namei, namei,
}
use rv.Kernel.Sys.{eperm}
use rv.Fs.Open.{enoent, eacces}
use rv.Fs.Walk.Create.{
  eexist, eisdir, enospc, with_node, add_to, set_entry, OpenResult, refused, gives, create_file,
  open_found, open_namei,
}

module _ (f : Counts) where
  look_up-Turns :
      (dir : ℕ) (name : List ℕ) → Turns (bump dir f) (λ r. bump r.0 f) (look_up dir name)
  unfolding look_up
  look_up-Turns dir name =
      Turns-bind-slot dir _ λ x p. Turns-bind _ _ (Turns-on_disk _ _) λ e. Turns-pure (dir, e)

  follow-Turns :
      (dir : ℕ) (name : List ℕ) (to : DotDot)
      → Turns (bump dir f) (λ r. bump r.0 f) (follow dir name to)
  unfolding follow
  follow-Turns dir name as_dot = Turns-pure (dir, _)
  follow-Turns dir name (from_mount d) =
      Turns-bind _ _ (iput-Turns dir) λ _. Turns-bind _ _ (Turns-up d) λ _. Turns-pure (d, name)
  follow-Turns dir name as_entry = Turns-pure (dir, name)

module _ {f : Counts} where
  mount_point-Turns : (root : Bool) (x : Slot) → Turns f (λ _. f) (mount_point root x)
  unfolding mount_point
  mount_point-Turns root x = Turns-if _ _ _ (Turns-on_volume _ _) (Turns-pure none)

module _ (f : Counts) where
  pub search_dir-Turns :
      (current : Task) (dir : ℕ) (name : List ℕ)
      → Turns (bump dir f) (λ r. bump r.0 f) (search_dir current dir name)
  unfolding search_dir
  search_dir-Turns current dir name = Turns-bind-slot dir _ λ x p.
      Turns-if _ _ _ (look_up-Turns f dir name) (
        Turns-bind _ _ (mount_point-Turns _ x)
          λ mount. Turns-bind _ _ (follow-Turns f dir name _) λ r. look_up-Turns f r.0 r.1)

module _ {f : Counts} where
  pub entry_inode-Turns : (dev : ℕ) (e : Place) → Turns f (λ _. f) (entry_inode dev e)
  unfolding entry_inode
  entry_inode-Turns dev (block, j) = Turns-on_disk dev _

module _ {f : Counts} where
  enter-Turns :
      (current : Task) (dir : ℕ) (name : List ℕ)
      → Turns (bump dir f) (held f) (enter current dir name)
  unfolding enter
  enter-Turns current dir name = Turns-bind _ _ (search_dir-Turns f current dir name) λ r.
      Turns-null r.1 _ _ (Turns-bind _ _ (iput-Turns r.0) λ _. Turns-pure none) λ e.
        Turns-bind-slot r.0 _ λ x p. Turns-bind _ _ (entry_inode-Turns _ e) λ inr.
          Turns-bind _ _ (iput-Turns r.0)
            λ _. Turns-bind _ _ (iget-balance _ _ inr) λ i. Turns-pure (some i)

  walk-Turns :
      (current : Task) (names : List (List ℕ)) (i : ℕ)
      → Turns (bump i f) (held f) (walk current names i)
  unfolding walk
  walk-Turns current [] i = Turns-bind-slot i _ λ x p.
      Turns-if _ _ _ (Turns-bind _ _ (iput-Turns i) λ _. Turns-pure none) (Turns-pure (some i))
  walk-Turns current (name ∷ names) i = Turns-bind-slot i _ λ x p.
      Turns-if _ _ _ (Turns-bind _ _ (iput-Turns i) λ _. Turns-pure none) (
        Turns-bind _ _ (enter-Turns current i name)
          λ next. Turns-held next _ _ (Turns-pure none) (walk-Turns current names))

  walk_from-Turns :
      (current : Task) (i : ℕ) (rest : List ℕ) → Turns f (held f) (walk_from current i rest)
  unfolding walk_from
  walk_from-Turns current i rest =
      Turns-bind _ _ (Turns-up i) λ _. walk-Turns current (split rest).0 i

  walk_path-Turns :
      (current : Task) (root pwd : ℕ) (path : List ℕ)
      → Turns f (held f) (walk_path current root pwd path)
  unfolding walk_path
  walk_path-Turns current root pwd [] = Turns-pure none
  walk_path-Turns current root pwd (c ∷ rest) =
      Turns-if _ _ _ (walk_from-Turns current root rest) (walk_from-Turns current pwd (c ∷ rest))

  get_dir-Turns : (current : Task) (path : List ℕ) → Turns f (held f) (get_dir current path)
  unfolding get_dir
  get_dir-Turns current path = Turns-null current.root _ _ Turns-panic λ root.
      Turns-null current.pwd _ _ Turns-panic λ pwd. Turns-bind-slot root _ λ r p.
        Turns-bind-slot pwd _
          λ q p'. Turns-if _ _ _ Turns-panic (walk_path-Turns current root pwd path)

-- The references with one more to the directory that is found.
abbrev pub held_dir : Counts → Option (ℕ × List ℕ) → Counts
held_dir f none = f
held_dir f (some (dir, base)) = bump dir f

module _ {A : Type 0} {f : Counts} {g : A → Counts} where
  pub Turns-held_dir :
      (o : Option (ℕ × List ℕ)) (m : Call A) (k : ℕ × List ℕ → Call A)
      → Turns f g m
      → ((r : ℕ × List ℕ) → Turns (bump r.0 f) g (k r))
      → Turns (held_dir f o) g (if_null o m k)
  unfolding if_null
  Turns-held_dir none m k hm hk = hm
  Turns-held_dir (some r) m k hm hk = hk r

module _ {f : Counts} where
  pub dir_namei-Turns :
      (current : Task) (path : List ℕ) → Turns f (held_dir f) (dir_namei current path)
  unfolding dir_namei
  dir_namei-Turns current path =
      Turns-bind _ _ (get_dir-Turns current path)
        λ dir. Turns-held dir _ _ (Turns-pure none) λ d. Turns-pure (some (d, (split path).1))

module _ (f : Counts) where
  -- namei() gives one reference more to the inode that it returns, none where it returns NULL, and
  -- leaves the references to every other slot as they were: those that the walk takes on its way, to
  -- directories and across mount points, are all given back.
  pub namei-balance : (current : Task) (path : List ℕ) → Turns f (held f) (namei current path)
  unfolding namei
  namei-balance current path = Turns-bind _ _ (dir_namei-Turns current path) λ r.
      Turns-held_dir r _ _ (Turns-pure none) λ (dir, base). Turns-if _ _ _ (Turns-pure (some dir)) (
        Turns-bind _ _ (enter-Turns current dir base) λ i.
          Turns-held i _ _ (Turns-pure none)
            λ j. Turns-bind _ _ (Turns-update j _ λ x. refl) λ _. Turns-pure (some j))

with_node-count : (n : Node) (x : Slot) → (with_node n x).i_count ≡ x.i_count
with_node-count n x = ground arith

-- The references with one more to the inode that is opened.
abbrev pub held_open : Counts → OpenResult → Counts
held_open f (refused e) = f
held_open f (gives i) = bump i f

module _ {f : Counts} where
  pub add_to-Turns : (dir : ℕ) (name : List ℕ) → Turns f (λ _. f) (add_to dir name)
  unfolding add_to
  add_to-Turns dir name = Turns-bind-slot dir _ λ x p.
      Turns-bind _ _ (Turns-on_disk _ _)
        λ r. Turns-bind _ _ (Turns-update dir _ (with_node-count r.1)) λ _. Turns-pure r.0

  pub set_entry-Turns : (dir : ℕ) (e : Place) (num : ℕ) → Turns f (λ _. f) (set_entry dir e num)
  unfolding set_entry
  set_entry-Turns dir (block, j) num = Turns-bind-slot dir _ λ x p. Turns-on_disk _ _

module _ (f : Counts) where
  -- The first of two references is given back, and then the second.
  pub iputs-Turns :
      {A : Type 0} {g : A → Counts} (i j : ℕ) (m : Call A)
      → Turns f g m
      → Turns (bump j (bump i f)) g (iput i >> (iput j >> m))
  iputs-Turns i j m h =
      Turns-bind _ _ (iput-Turns_under f i j) λ _. Turns-bind _ _ (iput-Turns j) λ _. h

  pub iputs-Turns_back :
      {A : Type 0} {g : A → Counts} (i j : ℕ) (m : Call A)
      → Turns f g m
      → Turns (bump j (bump i f)) g (iput j >> (iput i >> m))
  iputs-Turns_back i j m h = Turns-bind _ _ (iput-Turns j) λ _. Turns-bind _ _ (iput-Turns i) λ _. h

  create_file-Turns :
      (current : Task) (dir : ℕ) (base : List ℕ) (flag mode : ℕ)
      → Turns (bump dir f) (held_open f) (create_file current dir base flag mode)
  unfolding create_file
  create_file-Turns current dir base flag mode = Turns-bind-slot dir _ λ x p.
      Turns-if _ _ _ (Turns-bind _ _ (iput-Turns dir) λ _. Turns-pure (refused enoent)) (
        Turns-if _ _ _ (Turns-bind _ _ (iput-Turns dir) λ _. Turns-pure (refused eacces)) (
          Turns-bind _ _ (new_inode-Turns current _) λ new.
            Turns-held new _ _ (Turns-bind _ _ (iput-Turns dir) λ _. Turns-pure (refused enospc))
              λ i. Turns-bind _ _ (Turns-update i _ λ x. refl) λ _.
                Turns-bind _ _ (add_to-Turns dir base) λ e.
                  Turns-null e _ _
                    (Turns-bind _ _ (Turns-update i _ λ x. refl)
                      λ _. iputs-Turns_back dir i _ (Turns-pure (refused enospc)))
                    λ e. Turns-bind-slot i _ λ y q.
                      Turns-bind _ _ (set_entry-Turns dir e _)
                        λ _. Turns-bind _ _ (iput-Turns_under f dir i) λ _. Turns-pure (gives i)))

  open_found-Turns :
      (current : Task) (dir : ℕ) (e : Place) (flag : ℕ)
      → Turns (bump dir f) (held_open f) (open_found current dir e flag)
  unfolding open_found
  open_found-Turns current dir e flag = Turns-bind-slot dir _ λ x p.
      Turns-bind _ _ (entry_inode-Turns _ e) λ inr. Turns-bind _ _ (iput-Turns dir) λ _.
        Turns-if _ _ _ (Turns-pure (refused eexist)) (
          Turns-bind _ _ (iget-balance _ _ inr) λ i. Turns-bind-slot i _ λ y q.
            Turns-if _ _ _ (Turns-bind _ _ (iput-Turns i) λ _. Turns-pure (refused eperm))
              (Turns-bind _ _ (Turns-when _ _ (truncate_slot-Turns i)) λ _. Turns-pure (gives i)))

  -- open_namei() gives one reference more to the inode that it opens or creates, none where it returns
  -- an error, and leaves the references to every other slot as they were, also where it fails with the
  -- new inode taken already.
  pub open_namei-balance :
      (current : Task) (path : List ℕ) (flags mode : ℕ)
      → Turns f (held_open f) (open_namei current path flags mode)
  unfolding open_namei
  open_namei-balance current path flags mode = Turns-bind _ _ (dir_namei-Turns current path) λ r.
      Turns-held_dir r _ _ (Turns-pure (refused enoent)) λ (dir, base).
        Turns-if _ _ _
          (Turns-if _ _ _ (Turns-bind _ _ (iput-Turns dir) λ _. Turns-pure (refused eisdir))
            (Turns-pure (gives dir)))
          (Turns-bind _ _ (search_dir-Turns f current dir base) λ found.
            Turns-null found.1 _ _ (create_file-Turns current found.0 base _ _)
              λ e. open_found-Turns current found.0 e _)
