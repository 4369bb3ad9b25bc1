-- ===== src/Config/HotReload.antt =====
-- `ConfigHotReload::WatchLoop` of lib_network/src/config/config_hot_reload.cc: what is done with
-- the bytes of one `read` of the inotify descriptor. The file is read and parsed by a parameter,
-- since it may change in between; `none` is an exception of the parser or of the callback, which
-- is logged. There is a callback.
pub mod Events
use network_lirbary.Common.{
  ℕ, zero, suc, ◌+◌, ◌*◌, ◌/◌, ◌%◌, ◌^◌, Bool, true, false, ◌||◌, ◌==◌, if◌then◌else◌, List, [],
  ◌∷◌, ◌++◌, Option, none, some, drop, get_or, Bytes,
}
use network_lirbary.Config.Settings.{ServerConfig}

-- A `uint32_t` in the machine's order, at an offset.
abbrev pub le32 : Bytes → ℕ → ℕ
le32 bs i =
    get_or bs i 0
    + get_or bs (i + 1) 0 * 2 ^ 8
    + get_or bs (i + 2) 0 * 2 ^ 16
    + get_or bs (i + 3) 0 * 2 ^ 24

-- `event->mask & (IN_MODIFY | IN_CLOSE_WRITE)`: the bits 2 and 8.
abbrev pub is_change : ℕ → Bool
is_change mask = (mask / 2 % 2 == 1) || (mask / 8 % 2 == 1)

-- The configurations that the callback has taken, and the world.
pub record Watching (World : Type 0) : Type 0 where
  pub applied : List ServerConfig
  pub failures : ℕ
  pub world : World

module _ {World : Type 0} (parse : World → Option ServerConfig × World) where
  abbrev parsed : Watching World → Option ServerConfig × World → Watching World
  parsed s (none, w) = record s { failures = suc s.failures; world = w }
  parsed s (some config, w) = record s { applied = s.applied ++ config ∷ []; world = w }

  pub reload : Watching World → Watching World
  reload s = parsed s (parse s.world)

  pub changed : ℕ → Watching World → Watching World
  changed mask s = if is_change mask then reload s else s

  -- The loop over the events, on fuel. The structure has 16 bytes: the descriptor, the mask, the
  -- cookie, and the length of the name that follows it.
  pub walk : ℕ → Bytes → Watching World → Watching World
  walk zero bs s = s
  walk (suc fuel) [] s = s
  walk (suc fuel) (b ∷ bs) s =
      walk fuel (drop (16 + le32 (b ∷ bs) 12) (b ∷ bs)) (changed (le32 (b ∷ bs) 4) s)
