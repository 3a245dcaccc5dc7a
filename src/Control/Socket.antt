-- ===== src/Control/Socket.antt =====
-- cli/src/daemon/control-server.ts: `isControlSocketLive`, `startControlServer` and the handle's
-- `close`, over the path of the socket and the processes that listen.
--
-- A socket is told by its inode, and a new one has a new inode. The requests that come over the
-- socket and the mode of the file are left out.
use hisohiso.Prelude.{
  ℕ, suc, Bool, false, not, Option, none, some, List, [], ◌∷◌, ◌++◌, ◌==◌, any, filter,
  if◌then◌else◌,
}

pub record World : Type 0 where
  -- The inode at SOCKET_FILE, and those on which a live process listens.
  pub path : Option ℕ
  pub listening : List ℕ
  pub fresh : ℕ

abbrev pub listens : ℕ → World → Bool
listens i w = any (λ j. j == i) w.listening

-- `isControlSocketLive`: a connection is taken exactly where a process listens at the path.
unfoldable pub is_control_socket_live : World → Bool
is_control_socket_live w = elim w.path [ none ↦ false | some i ↦ listens i w ]

-- `unlink(SOCKET_FILE)`, whose failure is ignored.
abbrev pub unlink_socket : World → World
unlink_socket w = record w { path = none }

-- `server.listen(SOCKET_FILE)`: a path that is taken is refused.
unfoldable pub listen : World → World × Option ℕ
listen w = elim w.path [
  | none ↦ (
    record w {
      path = some w.fresh;
      listening = w.listening ++ (w.fresh ∷ []);
      fresh = suc w.fresh;
    },
    some w.fresh,
  )
  | some i ↦ (w, none)
]

-- `startControlServer` after its probe, with what it found: the inode it listens on, or none for
-- DaemonAlreadyRunningError.
unfoldable pub finish_start : Bool → World → World × Option ℕ
unfolding listen
finish_start live w = if live then (w, none) else listen (unlink_socket w)

-- `startControlServer` without another process in between.
unfoldable pub start_control_server : World → World × Option ℕ
unfolding is_control_socket_live finish_start
start_control_server w = finish_start (is_control_socket_live w) w

abbrev pub is_at : ℕ → Option ℕ → Bool
is_at i none = false
is_at i (some j) = j == i

-- The end of a process: nobody listens on its socket any more, which stays at the path.
unfoldable pub crash : ℕ → World → World
crash i w = record w { listening = filter (λ j. not (j == i)) w.listening }

-- `close` of the handle whose socket has the inode `ours`.
unfoldable pub close : ℕ → World → World
unfolding crash
close ours w = if is_at ours w.path then unlink_socket (crash ours w) else w

pub data Step (w : World) : World → Type 0 where
  start_step : Step w (start_control_server w).0
  close_step : (i : ℕ) → Step w (close i w)
  crash_step : (i : ℕ) → Step w (crash i w)

pub data Reach (w : World) : World → Type 0 where
  start : Reach w w
  next : {v u : World} → Reach w v → Step v u → Reach w u
