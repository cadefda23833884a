-- ===== src/Fs/Links/Balance.antt =====
-- The references to the inodes through the calls that make and remove names.
use rv.Common.{ℕ, ◌≡◌, refl, arith, Option, ◌==◌, List}
use rv.Kernel.Task.{Task}
use rv.Kernel.Sys.{Ret, ok, err, eperm}
use rv.Fs.Open.{enoent, eacces, enotdir}
use rv.Fs.Vfs.{Slot, Call, on_disk}
use rv.Fs.Vfs.Turns.{
  Counts, bump, Turns, Turns-if, Turns-pure, Turns-bind, Turns-bind-slot, Turns-null, Turns-held,
  Turns-update, Turns-on_disk,
}
use rv.Fs.Table.Balance.{iput-Turns, iput-Turns_under, iget-balance, new_inode-Turns}
use rv.Fs.Walk.{Place}
use rv.Fs.Walk.Create.{eexist, enospc}
use rv.Fs.Walk.Balance.{
  search_dir-Turns, entry_inode-Turns, dir_namei-Turns, Turns-held_dir, namei-balance, add_to-Turns,
  set_entry-Turns,
}
use rv.Fs.Links.{
  put_both, put_one, with_entry, make_node, sys_mknod, fill_dir, make_dir, sys_mkdir, link_entry,
  link_to, sys_link, exdev, error_code, enotempty,
}
use rv.Fs.Links.Remove.{
  drop_dir, remove_other, remove_dir, sys_rmdir, unlinked, unlink_entry, sys_unlink, read_empty,
}

-- A call that leaves the references as they were.
abbrev pub Keeps : Counts → Call Ret → Type 0
Keeps f m = Turns f (λ _. f) m

module _ (f : Counts) where
  put_one-Turns : (i : ℕ) (r : Ret) → Turns (bump i f) (λ _. f) (put_one i r)
  unfolding put_one
  put_one-Turns i r = Turns-bind _ _ (iput-Turns i) λ _. Turns-pure r

  put_both-Turns : (i j : ℕ) (r : Ret) → Turns (bump i (bump j f)) (λ _. f) (put_both i j r)
  unfolding put_both
  put_both-Turns i j r =
      Turns-bind _ _ (iput-Turns i) λ _. Turns-bind _ _ (iput-Turns j) λ _. Turns-pure r

  put_both-Turns_under : (i j : ℕ) (r : Ret) → Turns (bump j (bump i f)) (λ _. f) (put_both i j r)
  unfolding put_both
  put_both-Turns_under i j r =
      Turns-bind _ _ (iput-Turns_under f i j) λ _. Turns-bind _ _ (iput-Turns j) λ _. Turns-pure r

  with_entry-Turns :
      (current : Task) (path : List ℕ) (k : ℕ → List ℕ → Option Place → Call Ret)
      → ((dir : ℕ) (base : List ℕ) (e : Option Place) → Turns (bump dir f) (λ _. f) (k dir base e))
      → Keeps f (with_entry current path k)
  unfolding with_entry
  with_entry-Turns current path k h = Turns-bind _ _ (dir_namei-Turns current path) λ r.
      Turns-held_dir r _ _ (Turns-pure (err enoent)) λ (dir, base).
        Turns-if _ _ _ (put_one-Turns dir (err enoent)) (
          Turns-bind-slot dir _ λ x p.
            Turns-if _ _ _ (put_one-Turns dir (err eperm)) (
              Turns-bind _ _ (search_dir-Turns f current dir base) λ found. h found.0 base found.1))

  make_node-Turns :
      (current : Task) (mode dev dir : ℕ) (base : List ℕ)
      → Turns (bump dir f) (λ _. f) (make_node current mode dev dir base)
  unfolding make_node
  make_node-Turns current mode dev dir base = Turns-bind-slot dir _ λ x p.
      Turns-bind _ _ (new_inode-Turns current _) λ new.
        Turns-held new _ _ (put_one-Turns dir (err enospc)) λ i.
          Turns-bind _ _ (Turns-update i _ λ x. refl) λ _.
            Turns-bind _ _ (add_to-Turns dir base) λ e.
              Turns-null e _ _
                (Turns-bind _ _ (iput-Turns_under f dir i) λ _.
                  Turns-bind _ _ (Turns-update i _ λ x. refl) λ _. put_one-Turns i (err enospc))
                λ e. Turns-bind-slot i _ λ y q.
                  Turns-bind _ _ (set_entry-Turns dir e _) λ _. put_both-Turns_under dir i (ok 0)

  sys_mknod-Turns :
      (current : Task) (path : List ℕ) (mode dev : ℕ) → Keeps f (sys_mknod current path mode dev)
  unfolding sys_mknod
  sys_mknod-Turns current path mode dev = Turns-if _ _ _ (Turns-pure (err eperm)) (
      with_entry-Turns current path _ λ dir base e.
        Turns-null e _ _ (make_node-Turns current mode dev dir base)
          λ e. put_one-Turns dir (err eexist))

  fill_dir-Turns :
      (current : Task) (mode dir : ℕ) (base : List ℕ) (i block : ℕ)
      → Turns (bump i (bump dir f)) (λ _. f) (fill_dir current mode dir base i block)
  unfolding fill_dir
  fill_dir-Turns current mode dir base i block = Turns-bind-slot dir _ λ x p.
      Turns-bind-slot i _ λ y q. Turns-bind _ _ (Turns-on_disk _ _) λ _.
        Turns-bind _ _ (Turns-update i _ λ x. refl) λ _. Turns-bind _ _ (add_to-Turns dir base) λ e.
          Turns-null e _ _
            (Turns-bind _ _ (iput-Turns_under f dir i) λ _.
              Turns-bind _ _ (Turns-on_disk _ _)
                λ _. Turns-bind _ _ (Turns-update i _ λ x. refl) λ _. put_one-Turns i (err enospc))
            λ e. Turns-bind _ _ (set_entry-Turns dir e _) λ _.
              Turns-bind _ _ (Turns-update dir _ λ x. refl) λ _. put_both-Turns_under dir i (ok 0)

  make_dir-Turns :
      (current : Task) (mode dir : ℕ) (base : List ℕ)
      → Turns (bump dir f) (λ _. f) (make_dir current mode dir base)
  unfolding make_dir
  make_dir-Turns current mode dir base = Turns-bind-slot dir _ λ x p.
      Turns-bind _ _ (new_inode-Turns current _) λ new.
        Turns-held new _ _ (put_one-Turns dir (err enospc)) λ i.
          Turns-bind _ _ (Turns-on_disk _ _) λ block.
            Turns-bind _ _ (Turns-update i _ λ x. refl) λ _.
              Turns-if _ _ _
                (Turns-bind _ _ (iput-Turns_under f dir i) λ _.
                  Turns-bind _ _ (Turns-update i _ λ x. refl) λ _. put_one-Turns i (err enospc))
                (Turns-bind _ _ (Turns-on_disk _ _) λ has_block.
                  Turns-if _ _ _ (fill_dir-Turns current mode dir base i _) (
                    Turns-bind _ _ (iput-Turns_under f dir i) λ _.
                      Turns-bind _ _ (Turns-on_disk _ _) λ _.
                        Turns-bind _ _ (Turns-update i _ λ x. refl)
                          λ _. put_one-Turns i (err error_code)))

  sys_mkdir-Turns :
      (current : Task) (path : List ℕ) (mode : ℕ) → Keeps f (sys_mkdir current path mode)
  unfolding sys_mkdir
  sys_mkdir-Turns current path mode = Turns-if _ _ _ (Turns-pure (err eperm)) (
      with_entry-Turns current path _ λ dir base e.
        Turns-null e _ _ (make_dir-Turns current mode dir base) λ e. put_one-Turns dir (err eexist))

  drop_dir-Turns :
      (dir : ℕ) (e : Place) (i : ℕ) → Turns (bump i (bump dir f)) (λ _. f) (drop_dir dir e i)
  unfolding drop_dir
  drop_dir-Turns dir e i = Turns-bind _ _ (set_entry-Turns dir e 0) λ _.
      Turns-bind _ _ (Turns-update i _ λ x. refl)
        λ _. Turns-bind _ _ (Turns-update dir _ λ x. refl) λ _. put_both-Turns_under dir i (ok 0)

  remove_other-Turns :
      (dir : ℕ) (e : Place) (i : ℕ) (y : Slot)
      → Turns (bump i (bump dir f)) (λ _. f) (remove_other dir e i y)
  unfolding remove_other
  remove_other-Turns dir e i y = Turns-if (i == dir) _ _ (put_both-Turns i dir (err eperm)) (
      Turns-if _ _ _ (put_both-Turns i dir (err enotdir)) (
        Turns-bind (on_disk y.inode.i_dev (read_empty y)) _ (Turns-on_disk _ _) λ empty.
          Turns-if empty _ _ (drop_dir-Turns dir e i) (put_both-Turns i dir (err enotempty))))

  remove_dir-Turns :
      (current : Task) (dir : ℕ) (e : Place)
      → Turns (bump dir f) (λ _. f) (remove_dir current dir e)
  unfolding remove_dir
  remove_dir-Turns current dir e = Turns-bind-slot dir _ λ x p.
      Turns-bind _ _ (entry_inode-Turns _ e) λ inr. Turns-bind _ _ (iget-balance _ _ inr) λ i.
        Turns-bind-slot dir _ λ x' p'. Turns-bind-slot i _ λ y q.
          Turns-if _ _ _ (put_both-Turns_under dir i (err eperm))
            (Turns-if _ _ _ (put_both-Turns_under dir i (err eperm)) (remove_other-Turns dir e i y))

  sys_rmdir-Turns : (current : Task) (path : List ℕ) → Keeps f (sys_rmdir current path)
  unfolding sys_rmdir
  sys_rmdir-Turns current path = Turns-if _ _ _ (Turns-pure (err eperm)) (
      with_entry-Turns current path _ λ dir base e.
        Turns-null e _ _ (put_one-Turns dir (err enoent)) (remove_dir-Turns current dir))

unlinked-count : (x : Slot) → (unlinked x).i_count ≡ x.i_count
unlinked-count x = ground arith

module _ (f : Counts) where
  unlink_entry-Turns :
      (current : Task) (dir : ℕ) (e : Place)
      → Turns (bump dir f) (λ _. f) (unlink_entry current dir e)
  unfolding unlink_entry
  unlink_entry-Turns current dir e = Turns-bind-slot dir _ λ x p.
      Turns-bind _ _ (entry_inode-Turns _ e) λ inr. Turns-bind _ _ (iget-balance _ _ inr) λ i.
        Turns-bind-slot dir _ λ x' p'. Turns-bind-slot i _ λ y q.
          Turns-if _ _ _ (put_both-Turns_under f dir i (err eperm)) (
            Turns-if _ _ _ (put_both-Turns f i dir (err eperm)) (
              Turns-bind _ _ (set_entry-Turns dir e 0) λ _.
                Turns-bind _ _ (Turns-update i unlinked unlinked-count)
                  λ _. put_both-Turns f i dir (ok 0)))

  sys_unlink-Turns : (current : Task) (path : List ℕ) → Keeps f (sys_unlink current path)
  unfolding sys_unlink
  sys_unlink-Turns current path = with_entry-Turns f current path _ λ dir base e.
      Turns-null e _ _ (put_one-Turns f dir (err enoent)) (unlink_entry-Turns current dir)

  link_entry-Turns :
      (old dir : ℕ) (base : List ℕ)
      → Turns (bump dir (bump old f)) (λ _. f) (link_entry old dir base)
  unfolding link_entry
  link_entry-Turns old dir base = Turns-bind _ _ (add_to-Turns dir base) λ e.
      Turns-null e _ _ (put_both-Turns f dir old (err enospc)) λ e. Turns-bind-slot old _ λ y q.
        Turns-bind _ _ (set_entry-Turns dir e _) λ _.
          Turns-bind _ _ (iput-Turns dir)
            λ _. Turns-bind _ _ (Turns-update old _ λ x. refl) λ _. put_one-Turns f old (ok 0)

  link_to-Turns :
      (current : Task) (old : ℕ) (path : List ℕ)
      → Turns (bump old f) (λ _. f) (link_to current old path)
  unfolding link_to
  link_to-Turns current old path = Turns-bind _ _ (dir_namei-Turns current path) λ r.
      Turns-held_dir r _ _ (put_one-Turns f old (err eacces)) λ (dir, base).
        Turns-if _ _ _ (put_both-Turns_under f old dir (err eperm)) (
          Turns-bind-slot dir _ λ x p. Turns-bind-slot old _ λ y q.
            Turns-if _ _ _ (put_both-Turns f dir old (err exdev)) (
              Turns-if _ _ _ (put_both-Turns f dir old (err eacces)) (
                Turns-bind _ _ (search_dir-Turns _ current dir base) λ found.
                  Turns-null found.1 _ _ (link_entry-Turns old found.0 base)
                    λ e. put_both-Turns f found.0 old (err eexist))))

  sys_link-Turns :
      (current : Task) (oldname newname : List ℕ) → Keeps f (sys_link current oldname newname)
  unfolding sys_link
  sys_link-Turns current oldname newname = Turns-bind _ _ (namei-balance f current oldname) λ r.
      Turns-held r _ _ (Turns-pure (err enoent)) λ old.
        Turns-bind-slot old _ λ y q.
          Turns-if _ _ _ (put_one-Turns f old (err eperm)) (link_to-Turns current old newname)

  -- sys_mknod(), sys_mkdir(), sys_rmdir(), sys_unlink() and sys_link() give back each reference to an inode
  -- that they take: where such a call returns, with success or with an error, the references to every
  -- slot of the inode table are what they were before it.
  pub names-balance :
      (current : Task) (path to : List ℕ) (mode dev : ℕ)
      → Keeps f (sys_mknod current path mode dev)
        × Keeps f (sys_mkdir current path mode)
        × Keeps f (sys_rmdir current path)
        × Keeps f (sys_unlink current path)
        × Keeps f (sys_link current path to)
  names-balance current path to mode dev = (
    sys_mknod-Turns f current path mode dev,
    sys_mkdir-Turns f current path mode,
    sys_rmdir-Turns f current path,
    sys_unlink-Turns current path,
    sys_link-Turns current path to,
  )
