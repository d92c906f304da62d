-- ===== src/FdManager.antt =====
-- captain/fd_manager.cpp, captain/include/fd_manager.h: the contexts of file descriptors.
-- A descriptor is not negative. `fstat` of the system is a parameter: does the call succeed, and if
-- so, is it a socket? So is `nonblocking`: does `F_GETFL` show `O_NONBLOCK`?
mod Table
mod Examples
use server_framework.Base.{
  ℕ, ◌-◌, ◌^◌, Bool, true, false, not, leb, ◌&&◌, ◌||◌, if◌then◌else◌, Option, none, some, List, [],
  ◌∷◌, length, get_elem?, set, replicate, Outcome, ok, bad_access, ◌>>=◌, ◌>>◌, guard, or_fail,
}

pub record FdCtx : Type 0 where
  pub is_init : Bool
  pub is_socket : Bool
  pub sys_nonblock : Bool
  pub user_nonblock : Bool
  pub is_closed : Bool
  pub fd : ℕ
  pub recv_timeout : ℕ
  pub send_timeout : ℕ

-- `-1` as a `uint64_t`.
abbrev pub no_timeout : ℕ
no_timeout = 2 ^ 64 - 1

pub data TimeoutType : Type 0 where
  so_rcvtimeo so_sndtimeo : TimeoutType

pub set_timeout : FdCtx → TimeoutType → ℕ → FdCtx
set_timeout c so_rcvtimeo v = record c { recv_timeout = v }
set_timeout c so_sndtimeo v = record c { send_timeout = v }

pub get_timeout : FdCtx → TimeoutType → ℕ
get_timeout c so_rcvtimeo = c.recv_timeout
get_timeout c so_sndtimeo = c.send_timeout

abbrev pub is_some : Option Bool → Bool
is_some none = false
is_some (some b) = true

abbrev pub is_true : Option Bool → Bool
is_true none = false
is_true (some b) = b

module _ (fstat : ℕ → Option Bool) (nonblocking : ℕ → Bool) where
  -- `init`: the context, and whether `F_SETFL` is called to make the descriptor non-blocking.
  pub init : FdCtx → FdCtx × Bool
  init c =
      let socket = is_true (fstat c.fd) in
      let fresh : FdCtx = record c {
        is_init = is_some (fstat c.fd);
        is_socket = socket;
        sys_nonblock = socket;
        user_nonblock = false;
        is_closed = false;
        recv_timeout = no_timeout;
        send_timeout = no_timeout;
      } in
      if c.is_init then (c, false) else (fresh, socket && not (nonblocking c.fd))

  -- The constructor `FdCtx(fd)`.
  pub new_ctx : ℕ → FdCtx
  unfolding init
  new_ctx fd =
      (init (record {
        is_init = false;
        is_socket = false;
        sys_nonblock = false;
        user_nonblock = false;
        is_closed = false;
        fd = fd;
        recv_timeout = no_timeout;
        send_timeout = no_timeout;
      })).0

  -- `m_datas.resize(64)`
  abbrev pub new_table : List (Option FdCtx)
  new_table = replicate 64 none

  -- `m_datas[fd] = ctx`
  abbrev pub put_ctx : List (Option FdCtx) → ℕ → Option FdCtx → Outcome (List (Option FdCtx))
  put_ctx datas fd c = do guard (not (leb (length datas) fd)) bad_access; ok (set datas fd c)

  abbrev pub is_null : Option FdCtx → Bool
  is_null none = true
  is_null (some c) = false

  pub get : List (Option FdCtx) → ℕ → Bool → Outcome (Option FdCtx × List (Option FdCtx))
  get datas fd auto_create =
      let create = do datas' ← put_ctx datas fd (some (new_ctx fd)); ok (some (new_ctx fd), datas')
      in let found = do
        c ← or_fail (get_elem? datas fd) bad_access
        if not (is_null c) || not auto_create then ok (c, datas) else create
        in if leb (length datas) fd
          then (if auto_create then create else ok (none, datas))
          else found

  pub del : List (Option FdCtx) → ℕ → Outcome (List (Option FdCtx))
  del datas fd = if leb (length datas) fd then ok datas else put_ctx datas fd none
