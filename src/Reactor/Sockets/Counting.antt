-- ===== src/Reactor/Sockets/Counting.antt =====
-- The loop has a socket for exactly the file descriptors that its poller watches, and counts them.
use goreactor.Common.{
  ℕ, ◌%◌, ◌^◌, Bool, true, false, Option, none, some, ◌≡◌, ◌≢◌, refl, sym, ap, ◌∙◌, arith,
}
use mathlib.Core.Option.{some-injective}
use mathlib.Core.Path.{subst}
use Prim.Native.Nat.{bit_or}
use goreactor.Common.{◌==◌, if◌then◌else◌, length}
use goreactor.Reactor.Sockets.Tables.{
  find, put, is_absent, are_distinct, find-put, find-delete, length-put, delete-put, length-delete,
  put-are_distinct, delete-are_distinct,
}
use goreactor.Reactor.Sockets.Defs.{
  Control, ctl_add, ctl_del, ctl_mod, Loop, read_event, write_event, after_remove, after_modify,
  add, add_read, remove, modify, enable_read_write, enable_read, delete_fd_in_loop, after_add,
  add_socket_and_enable_read, loop_enable, event_socket, new_sockets, connection_count,
}

-- epoll_ctl(2): EEXIST and ENOENT keep it from adding a descriptor that the interest list has, and
-- from changing or removing one that it has not; removing one that it has works.
pub record Epoll {K : Type 0} (epoll_ctl : Control → ℕ → ℕ → K → Option K)
    (interest : K → ℕ → Option ℕ) : Type 0 where
  pub added :
      (fd events : ℕ) (k k' : K)
      → epoll_ctl ctl_add fd events k ≡ some k'
      → (interest k fd ≡ none)
        × ((j : ℕ) → interest k' j ≡ (if fd == j then some events else interest k j))
  pub deleted :
      (fd events : ℕ) (k k' : K)
      → epoll_ctl ctl_del fd events k ≡ some k'
      → (is_absent (interest k fd) ≡ false)
        × ((j : ℕ) → interest k' j ≡ (if fd == j then none else interest k j))
  pub modified :
      (fd events : ℕ) (k k' : K)
      → epoll_ctl ctl_mod fd events k ≡ some k'
      → (is_absent (interest k fd) ≡ false)
        × ((j : ℕ) → interest k' j ≡ (if fd == j then some events else interest k j))
  pub deletes :
      (fd events : ℕ) (k : K)
      → is_absent (interest k fd) ≡ false
      → (k' : K) × (epoll_ctl ctl_del fd events k ≡ some k')

module _ {S K : Type 0} (epoll_ctl : Control → ℕ → ℕ → K → Option K) (interest : K → ℕ → Option ℕ)
    (epoll : Epoll epoll_ctl interest) (event_fd : ℕ) where
  -- Each socket has one entry; the poller watches their file descriptors and its event file;
  -- `ConnCnt` is their number.
  pub record IsCounted (el : Loop S K) : Type 0 where
    pub once : are_distinct el.sockets ≡ true
    pub watched :
        (j : ℕ) → j ≢ event_fd → is_absent (interest el.kernel j) ≡ is_absent (find j el.sockets)
    pub own : find event_fd el.sockets ≡ none
    pub own_watched : is_absent (interest el.kernel event_fd) ≡ false
    pub counted : connection_count el ≡ length el.sockets % 2 ^ 64

  -- What a loop can become: a new one; with a socket added whose file descriptor it has not; with
  -- one deleted; with what is watched changed.
  pub data Held : Loop S K → Type 0 where
    made :
        (k : K)
        → ((j : ℕ) → is_absent (interest k j) ≡ (if j == event_fd then false else true))
        → Held (new_sockets k)
    added_socket :
        {el : Loop S K} (fd : ℕ) (s : S)
        → Held el
        → find fd el.sockets ≡ none
        → Held (add_socket_and_enable_read epoll_ctl fd s el).0
    deleted_fd :
        {el el' : Loop S K} (fd : ℕ)
        → Held el
        → fd ≢ event_fd
        → delete_fd_in_loop epoll_ctl fd el ≡ some el'
        → Held el'
    enabled :
        {el el' : Loop S K} (with_write : Bool) (fd : ℕ)
        → Held el
        → loop_enable epoll_ctl with_write fd el ≡ some el'
        → Held el'

  made_lem :
      (k : K)
      → ((j : ℕ) → is_absent (interest k j) ≡ (if j == event_fd then false else true))
      → IsCounted (new_sockets k)
  unfolding new_sockets are_distinct find is_absent connection_count
  made_lem k h = record {
    once = refl;
    watched = λ j ne. ground (arith, h j);
    own = refl;
    own_watched = ground (arith, h event_fd);
    counted = ground arith;
  }

  after_add_lem :
      (fd : ℕ) (s : S) (el : Loop S K) (o : Option K)
      → add_read epoll_ctl fd el.kernel ≡ o
      → IsCounted el
      → find fd el.sockets ≡ none
      → IsCounted (after_add fd (put fd s el.sockets) el o).0
  unfolding after_add connection_count add_read add is_absent
  after_add_lem fd s el none e v new =
      let same = delete-put fd s el.sockets new in
      record {
        once = ap are_distinct same ∙ v.once;
        watched = λ j ne. v.watched j ne ∙ ap (λ m. is_absent (find j m)) (sym same);
        own = ap (find event_fd) same ∙ v.own;
        own_watched = v.own_watched;
        counted = v.counted ∙ ap (λ m. length m % 2 ^ 64) (sym same);
      }
  after_add_lem fd s el (some k) e v new =
      let (unwatched, now) = epoll.added fd read_event el.kernel k e in
      record {
        once = put-are_distinct fd s el.sockets v.once;
        watched = λ j ne. ground (arith, now j, find-put fd j s el.sockets, v.watched j ne);
        own = ground (arith, find-put fd event_fd s el.sockets, unwatched, v.own, v.own_watched);
        own_watched = ground (arith, now event_fd, v.own_watched);
        counted = ground (arith, length-put fd s el.sockets new, v.counted);
      }

  delete_lem :
      (fd : ℕ) (el el' : Loop S K) (o : Option K)
      → remove epoll_ctl fd el.kernel ≡ o
      → IsCounted el
      → fd ≢ event_fd
      → after_remove fd el o ≡ some el'
      → IsCounted el'
  unfolding after_remove remove is_absent connection_count
  delete_lem fd el el' none e v ne h = absurd (ground arith)
  delete_lem fd el el' (some k) e v ne h =
      let (watched, now) = epoll.deleted fd 0 el.kernel k e in
      let held = sym (v.watched fd ne) ∙ watched in
      subst IsCounted (some-injective _ _ h) (record {
        once = delete-are_distinct fd el.sockets v.once;
        watched = λ j nj. ground (arith, now j, find-delete fd j el.sockets, v.watched j nj);
        own = ground (arith, find-delete fd event_fd el.sockets, v.own);
        own_watched = ground (arith, now event_fd, v.own_watched);
        counted = ground (arith, length-delete fd el.sockets v.once held, v.counted);
      })

  enable_lem :
      (events fd : ℕ) (el el' : Loop S K) (o : Option K)
      → epoll_ctl ctl_mod fd events el.kernel ≡ o
      → IsCounted el
      → after_modify el o ≡ some el'
      → IsCounted el'
  unfolding after_modify is_absent connection_count
  enable_lem events fd el el' none e v h = absurd (ground arith)
  enable_lem events fd el el' (some k) e v h =
      let (watched, now) = epoll.modified fd events el.kernel k e in
      subst IsCounted (some-injective _ _ h) (record {
        once = v.once;
        watched = λ j nj. ground (arith, now j, watched, v.watched j nj);
        own = v.own;
        own_watched = ground (arith, now event_fd, v.own_watched);
        counted = v.counted;
      })

  -- Whatever sockets are added and deleted and whatever is watched of them, a loop has one entry for
  -- each socket, its poller watches exactly their file descriptors and its event file, and `ConnCnt` is their
  -- number; if only file descriptors are added that the loop has not, and the event file is not deleted.
  pub Held-IsCounted : {el : Loop S K} → Held el → IsCounted el
  unfolding add_socket_and_enable_read delete_fd_in_loop loop_enable modify enable_read_write
      enable_read
  Held-IsCounted (made k h) = made_lem k h
  Held-IsCounted (added_socket {el} fd s held new) =
      after_add_lem fd s el (add_read epoll_ctl fd el.kernel) refl (Held-IsCounted held) new
  Held-IsCounted (deleted_fd {el} {el'} fd held ne h) =
      delete_lem fd el el' (remove epoll_ctl fd el.kernel) refl (Held-IsCounted held) ne h
  Held-IsCounted (enabled {el} {el'} true fd held h) =
      enable_lem (bit_or read_event write_event) fd el el' _ refl (Held-IsCounted held) h
  Held-IsCounted (enabled {el} {el'} false fd held h) =
      enable_lem read_event fd el el' _ refl (Held-IsCounted held) h

  -- `DeleteFdInLoop` of a socket that the loop has does not end the program; `handlerEvent` then finds no socket for
  -- its file descriptor, and for the others what it found before.
  pub delete_fd_in_loop_lem :
      (fd : ℕ) (el : Loop S K)
      → Held el
      → is_absent (event_socket fd el) ≡ false
      → (el' : Loop S K) × (delete_fd_in_loop epoll_ctl fd el ≡ some el')
        × ((j : ℕ) → event_socket j el' ≡ (if fd == j then none else event_socket j el))
  unfolding delete_fd_in_loop event_socket remove after_remove is_absent
  delete_fd_in_loop_lem fd el held h =
      let v = Held-IsCounted held in
      let ne : fd ≢ event_fd = ground (arith, v.own, h) in
      let (k, e) = epoll.deletes fd 0 el.kernel (v.watched fd ne ∙ h) in
      (_, ap (after_remove fd el) e, λ j. find-delete fd j el.sockets)
