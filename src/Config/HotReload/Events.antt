-- ===== src/Config/HotReload/Events.antt =====
-- The events of one read, and what they come to.
use network_lirbary.Common.{
  ℕ, zero, suc, ◌+◌, ◌/◌, ◌%◌, ◌^◌, ◌≤◌, ◌<◌, ◌≡◌, refl, ap, ap₂, ◌∙◌, if◌then◌else◌, List, [], ◌∷◌,
  ◌++◌, concat, map, All, Option, drop, length, Bytes, arith, drop-append_exact,
}
use network_lirbary.Config.Settings.{ServerConfig}
use network_lirbary.Config.HotReload.{le32, is_change, Watching, reload, changed, walk}

-- `struct inotify_event`, with its name.
pub record Event : Type 0 where
  pub wd : ℕ
  pub mask : ℕ
  pub cookie : ℕ
  pub name : Bytes

abbrev to_le32 : ℕ → Bytes
to_le32 x = (x % 256) ∷ (x / 2 ^ 8 % 256) ∷ (x / 2 ^ 16 % 256) ∷ (x / 2 ^ 24 % 256) ∷ []

abbrev pub encode : Event → Bytes
encode e =
    to_le32 e.wd ++ (to_le32 e.mask ++ (to_le32 e.cookie ++ (to_le32 (length e.name) ++ e.name)))

abbrev pub FitsWords : Event → Type 0
FitsWords e = (e.mask < 2 ^ 32) × (length e.name < 2 ^ 32)

-- A change reloads the file.
abbrev pub reload_on :
    {World : Type 0} (parse : World → Option ServerConfig × World)
    → List Event
    → Watching World
    → Watching World
reload_on parse [] s = s
reload_on parse (e ∷ es) s = reload_on parse es (if is_change e.mask then reload parse s else s)

mask-encode : (e : Event) (rest : Bytes) → FitsWords e → le32 (encode e ++ rest) 4 ≡ e.mask
mask-encode e rest h = omega arith

length-encode :
    (e : Event) (rest : Bytes) → FitsWords e → le32 (encode e ++ rest) 12 ≡ length e.name
length-encode e rest h = omega arith

drop-encode :
    (e : Event) (rest : Bytes)
    → FitsWords e
    → drop (16 + le32 (encode e ++ rest) 12) (encode e ++ rest) ≡ rest
drop-encode e rest h =
    ap (λ n. drop (16 + n) (encode e ++ rest)) (length-encode e rest h)
    ∙ drop-append_exact (16 + length e.name) (encode e) rest (omega arith)

module _ {World : Type 0} (parse : World → Option ServerConfig × World) where
  -- One read gives the bytes of some events, each with a mask and a length of its name below
  -- 2^32: the loop takes exactly these events, in order, whatever their names hold, and parses
  -- the file anew once for each that is a modification or a close after writing. `fuel` is at
  -- least the number of events.
  pub walk-encode :
      (fuel : ℕ) (es : List Event) (s : Watching World)
      → All FitsWords es
      → length es ≤ fuel
      → walk parse fuel (concat (map encode es)) s ≡ reload_on parse es s
  unfolding walk changed
  walk-encode zero [] s h k = refl
  walk-encode zero (e ∷ es) s h k = absurd (omega arith)
  walk-encode (suc fuel) [] s h k = refl
  walk-encode (suc fuel) (e ∷ es) s h k =
      ap₂ (λ bs m. walk parse fuel bs (if is_change m then reload parse s else s))
        (drop-encode e (concat (map encode es)) h.0) (mask-encode e (concat (map encode es)) h.0)
      ∙ walk-encode fuel es (if is_change e.mask then reload parse s else s) h.1 (omega arith)
