-- ===== src/Process/Linux/Holder.antt =====
-- process/process_linux.go: the search of /proc.
use cropstun.Base.{
  ℕ, ◌≡◌, refl, ap, ap₂, ◌∙◌, ◌≢◌, ◌⊎◌, inl, inr, Bool, true, false, ◌&&◌, Bool-cases, List, [],
  ◌∷◌, ◌++◌, none, some, All, ◌==◌, if◌then◌else◌, arith,
}
use cropstun.Base.Go.{Error, Result, ok, err}
use cropstun.Net.{Addr}
use cropstun.Tun.Names.{has_prefix, parse_unsigned}
use cropstun.Process.Common.{bytes_eq}
use cropstun.Process.Linux.{
  Entry, Kernel, is_pid, socket_name, any_link, is_link, holds, process_of, search_entries,
  protocol_of, request, first_response, resolve_socket_by_netlink,
  resolve_process_name_by_proc_search, find_process_name, capped,
}

pub bytes_eq_refl : (xs : List ℕ) → bytes_eq xs xs ≡ true
bytes_eq_refl [] = refl
bytes_eq_refl (x ∷ xs) = ground (arith, bytes_eq_refl xs)

pub bytes_eq→≡ : (xs ys : List ℕ) → bytes_eq xs ys ≡ true → xs ≡ ys
bytes_eq→≡ [] [] h = refl
bytes_eq→≡ [] (y ∷ ys) h = ground arith
bytes_eq→≡ (x ∷ xs) [] h = ground arith
bytes_eq→≡ (x ∷ xs) (y ∷ ys) h =
    let head : x ≡ y = ground arith in
    let tail : bytes_eq xs ys ≡ true = ground arith in ap₂ ◌∷◌ head (bytes_eq→≡ xs ys tail)

if_same {ℓ} : {A : Type ℓ} (b : Bool) (x : A) → (if b then x else x) ≡ x
if_same true x = refl
if_same false x = refl

module _ {K : Type 0} (sys : Kernel K) (k : K) where
  -- One of the descriptors is a link to the target.
  abbrev pub HasLink : List ℕ → List (List ℕ) → List ℕ → Type 0
  HasLink name [] target = ⊥
  HasLink name (fd ∷ fds) target = (sys.fd_link k name fd ≡ ok target) ⊎ HasLink name fds target

  -- A process of the user that holds the socket.
  pub record Owner (inode uid : ℕ) (f : Entry) : Type 0 where
    pub dir : f.is_dir ≡ true
    pub numeric : is_pid f.name ≡ true
    pub owned : f.info ≡ ok uid
    pub fds : List (List ℕ)
    pub listed : sys.fd_dir k f.name ≡ ok fds
    pub linked : HasLink f.name fds (socket_name inode)

  -- An entry that is no process, or a process of another user or without a link to the socket.
  pub data Passed (inode uid : ℕ) (f : Entry) : Type 0 where
    no_process : (f.is_dir && is_pid f.name) ≡ false → Passed inode uid f
    other_user : (u : ℕ) → f.info ≡ ok u → u ≢ uid → Passed inode uid f
    unreadable : (e : Error) → f.info ≡ ok uid → sys.fd_dir k f.name ≡ err e → Passed inode uid f
    unlinked :
        (fds : List (List ℕ))
        → f.info ≡ ok uid
        → sys.fd_dir k f.name ≡ ok fds
        → All (λ fd. sys.fd_link k f.name fd ≢ ok (socket_name inode)) fds
        → Passed inode uid f

  any_link-HasLink :
      (name target : List ℕ) (fds : List (List ℕ))
      → HasLink name fds target
      → any_link sys k name fds target ≡ true
  unfolding any_link
  any_link-HasLink name target [] h = elim h [ ]
  any_link-HasLink name target (fd ∷ fds) (inl e) = rw (e, bytes_eq_refl target) refl
  any_link-HasLink name target (fd ∷ fds) (inr h) =
      rw (any_link-HasLink name target fds h) (if_same _ _)

  is_link-false :
      (r : Result (List ℕ)) (target : List ℕ) → r ≢ ok target → is_link sys k r target ≡ false
  is_link-false (err e) target h = refl
  is_link-false (ok link) target h = elim (Bool-cases (bytes_eq link target)) [
    | inl t ↦ absurd (h (ap ok (bytes_eq→≡ link target t)))
    | inr f ↦ f
  ]

  any_link-none :
      (name target : List ℕ) (fds : List (List ℕ))
      → All (λ fd. sys.fd_link k name fd ≢ ok target) fds
      → any_link sys k name fds target ≡ false
  unfolding any_link
  any_link-none name target [] h = refl
  any_link-none name target (fd ∷ fds) h =
      rw (is_link-false (sys.fd_link k name fd) target h.0) (any_link-none name target fds h.1)

  search_entries-Passed :
      (inode uid : ℕ) (f : Entry) (fs : List Entry)
      → Passed inode uid f
      → search_entries sys k inode uid (f ∷ fs) ≡ search_entries sys k inode uid fs
  unfolding search_entries holds
  search_entries-Passed inode uid f fs (no_process h) = rw h refl
  search_entries-Passed inode uid f fs (other_user u i ne) =
      let n : (u == uid) ≡ false = ground arith in rw (i, n) (if_same _ _)
  search_entries-Passed inode uid f fs (unreadable e i l) =
      let same : (uid == uid) ≡ true = ground arith in rw (i, same, holds, l) (if_same _ _)
  search_entries-Passed inode uid f fs (unlinked fds i l h) =
      let same : (uid == uid) ≡ true = ground arith in
      rw (i, same, holds, l, any_link-none f.name (socket_name inode) fds h) (if_same _ _)

  search_entries-Owner :
      (inode uid : ℕ) (f : Entry) (fs : List Entry)
      → Owner inode uid f
      → search_entries sys k inode uid (f ∷ fs) ≡ process_of sys k f.name
  unfolding search_entries holds
  search_entries-Owner inode uid f fs o =
      let same : (uid == uid) ≡ true = ground arith in
      rw
        (
          o.dir,
          o.numeric,
          o.owned,
          same,
          holds,
          o.listed,
          any_link-HasLink f.name (socket_name inode) o.fds o.linked,
        )
        refl

  search_entries-append :
      (inode uid : ℕ) (before rest : List Entry)
      → All (Passed inode uid) before
      → search_entries sys k inode uid (before ++ rest) ≡ search_entries sys k inode uid rest
  search_entries-append inode uid [] rest h = refl
  search_entries-append inode uid (f ∷ before) rest h =
      search_entries-Passed inode uid f (before ++ rest) h.0
      ∙ search_entries-append inode uid before rest h.1

  -- When the kernel's first response names a user and an inode, and /proc lists a process of that
  -- user that holds the socket of that inode, behind entries that are no process or none of that user
  -- or hold no link to it, `findProcessName` returns the user, the number that is the process's name,
  -- and the target of its link exe.
  pub find_process_name-Owner :
      (network : List ℕ) (ip : Addr) (src_port protocol uid inode : ℕ) (messages : List (List ℕ))
      (before after : List Entry) (f : Entry) (exe : List ℕ)
      → protocol_of network ≡ some protocol
      → sys.sock_diag k (request protocol ip src_port) ≡ ok messages
      → first_response messages ≡ ok (uid, inode)
      → sys.proc_dir k ≡ ok (before ++ (f ∷ after))
      → All (Passed inode uid) before
      → Owner inode uid f
      → sys.exe_link k f.name ≡ ok exe
      → find_process_name sys k network ip src_port
        ≡ (((uid, capped (parse_unsigned f.name)), exe), none)
  unfolding find_process_name resolve_socket_by_netlink resolve_process_name_by_proc_search
      has_prefix parse_unsigned
  find_process_name-Owner network ip src_port protocol uid inode messages before after f exe p q r d
        h o x =
      let found =
        search_entries-append inode uid before (f ∷ after) h
        ∙ search_entries-Owner inode uid f after o in
      rw
        (
          find_process_name, resolve_socket_by_netlink, p, q, r,
          resolve_process_name_by_proc_search, d, found, x,
        )
        refl

  -- If /proc lists a process that has ended before its `Info` is taken, and no entry before it is the
  -- one that is searched for, the search ends with the error of `Info`, whatever follows.
  pub vanished_process_error :
      (inode uid : ℕ) (before after : List Entry) (f : Entry) (e : Error)
      → sys.proc_dir k ≡ ok (before ++ (f ∷ after))
      → All (Passed inode uid) before
      → f.is_dir ≡ true
      → is_pid f.name ≡ true
      → f.info ≡ err e
      → resolve_process_name_by_proc_search sys k inode uid ≡ err e
  unfolding resolve_process_name_by_proc_search search_entries
  vanished_process_error inode uid before after f e d h dir numeric failed =
      let skipped = search_entries-append inode uid before (f ∷ after) h in
      rw (resolve_process_name_by_proc_search, d, skipped, search_entries, dir, numeric, failed)
        refl
