-- ===== src/Dfu/Upload.antt =====
-- What DFU_UPLOAD answers, on each of its branches.
use swindle_bootloader_gd.Common.{
  ℕ, zero, suc, ◌+◌, ◌-◌, ◌*◌, ◌%◌, ◌^◌, ◌<◌, ◌≡◌, ◌≢◌, refl, sym, subst, ap, ◌∙◌, Bool, true,
  false, ◌&&◌, Option, none, some, List, [], ◌∷◌, ◌==◌, if◌then◌else◌, ◌>>=◌, ◌>>◌, arith, u8, u32,
  leb, get_elem?, length, blit, M, Returns, returns, Returns-bind, Returns_mono, Returns-if,
}
use mathlib.Core.Path.{ap₂}
use native.Mathlib.Nat.{add-zero}
use swindle_bootloader_gd.Bus.{byte, Log, Env}
use swindle_bootloader_gd.Device.{
  Config, Chip, dfu_req, error, upload_idle, SetupData, dfu_transfer_size, Dfu,
}
use swindle_bootloader_gd.Dfu.{
  Reply, reply_bytes, done, set_state, cmd_setaddr, cmd_erase, block_address, in_app_area, on_bus,
  read_flash, upload_block, upload_request, handle_request, switch_request, usbdfu_control_request,
}
use swindle_bootloader_gd.Dfu.Sized.{IsSized}

-- The flash answers with the bytes of `rom`, whatever was done before.
abbrev pub HoldsRom : Env → (ℕ → ℕ) → Type 0
HoldsRom env rom = (h : Log) (a : ℕ) → env h byte a ≡ rom a

unfoldable pub rom_bytes : (ℕ → ℕ) → ℕ → ℕ → List ℕ
rom_bytes rom zero a = []
rom_bytes rom (suc n) a = u8 (rom a) ∷ rom_bytes rom n (u32 (a + 1))

length-rom_bytes : (rom : ℕ → ℕ) (n a : ℕ) → length (rom_bytes rom n a) ≡ n
unfolding rom_bytes
length-rom_bytes rom zero a = refl
length-rom_bytes rom (suc n) a = ap suc (length-rom_bytes rom n (u32 (a + 1)))

blit-whole : (xs dst : List ℕ) → length xs ≡ length dst → blit xs dst ≡ xs
blit-whole [] [] e = refl
blit-whole [] (y ∷ dst) e = absurd (omega arith)
blit-whole (x ∷ xs) [] e = absurd (omega arith)
blit-whole (x ∷ xs) (y ∷ dst) e = ap (λ ys. x ∷ ys) (blit-whole xs dst (omega arith))

read_flash-rom :
    (env : Env) (rom : ℕ → ℕ) (n a : ℕ) (h : Log)
    → HoldsRom env rom
    → Returns (λ bytes _. bytes ≡ rom_bytes rom n a) (read_flash env n a h)
unfolding read_flash rom_bytes
read_flash-rom env rom zero a h same = returns refl
read_flash-rom env rom (suc n) a h same =
    Returns-bind (read_flash-rom env rom n (u32 (a + 1)) _ same)
      λ rest t e. returns (rw (same h a, e) refl)

-- The answer to a request for block `value`: the commands, the block, or an error.
abbrev pub Answer : (ℕ → ℕ) → ℕ → Bool → Bool → Dfu → Reply → Dfu → Type 0
Answer rom a true allowed s r t =
    (r.len ≡ 3)
    × (t.usbdfu_state ≡ upload_idle)
    × (t.control_buffer ≡ blit (0 ∷ cmd_setaddr ∷ cmd_erase ∷ []) s.control_buffer)
Answer rom a false true s r t =
    (r.len ≡ dfu_transfer_size)
    × (t.usbdfu_state ≡ upload_idle)
    × (t.control_buffer ≡ rom_bytes rom dfu_transfer_size a)
Answer rom a false false s r t =
    (r.len ≡ 0) × (t.usbdfu_state ≡ error) × (t.control_buffer ≡ s.control_buffer)

-- `on_bus (read_flash …)` and what follows, for any length.
read_block :
    (env : Env) (rom : ℕ → ℕ) (n a : ℕ) (s : Dfu)
    → HoldsRom env rom
    → Returns
        (λ bytes t. (bytes ≡ rom_bytes rom n a) × (t ≡ record s { log = t.log }))
        (on_bus (read_flash env n a) s)
read_block env rom n a s same =
    after (read_flash env n a s.log) (read_flash-rom env rom n a s.log same)
  where
    after :
        (o : Option (List ℕ × Log))
        → Returns (λ bytes _. bytes ≡ rom_bytes rom n a) o
        → Returns
            (λ bytes t. (bytes ≡ rom_bytes rom n a) × (t ≡ record s { log = t.log }))
            (elim o [ none ↦ none | some (b, h) ↦ some (b, record s { log = h }) ])
    after none r = elim r [ ]
    after (some (b, h)) (returns e) = returns (e, refl)

fill-reply :
    (env : Env) (rom : ℕ → ℕ) (n a : ℕ) (s : Dfu)
    → HoldsRom env rom
    → length s.control_buffer ≡ n
    → Returns
        (λ (r : Reply) t.
          (r.len ≡ n) × (t.usbdfu_state ≡ s.usbdfu_state) × (t.control_buffer ≡ rom_bytes rom n a))
        ((do bytes ← on_bus (read_flash env n a); reply_bytes bytes; done n) s)
fill-reply env rom n a s same sized =
    Returns-bind (read_block env rom n a s same) λ bytes t (e, kept).
      let size : length (rom_bytes rom n a) ≡ length t.control_buffer =
        length-rom_bytes rom n a
        ∙ sym sized
        ∙ sym (ap (λ (u : Dfu). length u.control_buffer) kept) in
      returns (
        refl,
        ap (λ (u : Dfu). u.usbdfu_state) kept,
        ap (λ b. blit b t.control_buffer) e ∙ blit-whole (rom_bytes rom n a) t.control_buffer size,
      )

abbrev failed : M Dfu Reply
failed = do set_state error; done 0

module _ (env : Env) (cfg : Config) (chip : Chip) (rom : ℕ → ℕ) (same : HoldsRom env rom)
    (req : SetupData) (s : Dfu) (sized : length s.control_buffer ≡ dfu_transfer_size)
    (idle : s.usbdfu_state ≡ upload_idle) where
  abbrev base : ℕ
  base = block_address s.prog.addr req.value

  abbrev whole_block : M Dfu Reply
  whole_block = do
    bytes ← on_bus (read_flash env dfu_transfer_size base)
    reply_bytes bytes
    done dfu_transfer_size

  whole_block-Answer : Returns (λ r t. Answer rom base false true s r t) (whole_block s)
  whole_block-Answer =
      Returns_mono (fill-reply env rom dfu_transfer_size base s same sized)
        λ r t (len, state, bytes). (len, state ∙ idle, bytes)

  upload_block-Answer :
      (b : Bool)
      → (cfg.dfu_upload && in_app_area chip base dfu_transfer_size) ≡ b
      → Returns
          (λ r t. Answer rom base false b s r t)
          ((if cfg.dfu_upload then upload_block env cfg chip req else failed) s)
  unfolding upload_block
  upload_block-Answer b e =
      let inside = in_app_area chip base dfu_transfer_size in
      let refused = λ (no : false ≡ b).
        subst (λ c. Returns (λ r t. Answer rom base false c s r t) (failed s)) no
          (returns (refl, refl, refl)) in
      Returns-if cfg.dfu_upload (upload_block env cfg chip req) failed s
        (λ up.
          Returns-if inside whole_block failed s
            (λ yes.
              subst (λ c. Returns (λ r t. Answer rom base false c s r t) (whole_block s))
                (sym (ap₂ (λ x y. x && y) up yes) ∙ e) whole_block-Answer)
            (λ no. refused (sym (ap₂ (λ x y. x && y) up no) ∙ e)))
        (λ down. refused (sym (ap (λ x. x && inside) down) ∙ e))

abbrev commands : M Dfu Reply
commands = do reply_bytes (0 ∷ cmd_setaddr ∷ cmd_erase ∷ []); done 3

module _ (env : Env) (cfg : Config) (chip : Chip) (rom : ℕ → ℕ) (same : HoldsRom env rom)
    (req : SetupData) (s : Dfu) (z : IsSized s) where
  abbrev allowed : Bool
  allowed =
      cfg.dfu_upload && in_app_area chip (block_address s.prog.addr req.value) dfu_transfer_size

  abbrev Answered : Bool → Reply → Dfu → Type 0
  Answered first r t = Answer rom (block_address s.prog.addr req.value) first allowed s r t

  -- The state before does not matter for the answer.
  restate :
      (b : Bool) {o : Option (Reply × Dfu)}
      → Returns
          (λ r t.
            Answer rom
              (block_address s.prog.addr req.value)
              false
              b
              (record s { usbdfu_state = upload_idle })
              r
              t)
          o
      → Returns (λ r t. Answer rom (block_address s.prog.addr req.value) false b s r t) o
  restate true a = a
  restate false a = a

  upload_request-Answer :
      Returns (λ r t. Answered (req.value == 0) r t) (upload_request env cfg chip req s)
  unfolding upload_request
  upload_request-Answer =
      let s' = record s { usbdfu_state = upload_idle } in
      let rest = if cfg.dfu_upload then upload_block env cfg chip req else failed in
      Returns-if (req.value == 0) commands rest s'
        (λ first.
          subst (λ c. Returns (λ r t. Answered c r t) (commands s')) (sym first)
            (returns (refl, refl, refl)))
        (λ block.
          subst (λ c. Returns (λ r t. Answered c r t) (rest s')) (sym block)
            (restate allowed
              (upload_block-Answer env cfg chip rom same req s' z.control refl allowed refl)))

request-Answer :
    (env : Env) (cfg : Config) (chip : Chip) (rom : ℕ → ℕ) (req : SetupData) (len : ℕ) (s : Dfu)
    → HoldsRom env rom
    → IsSized s
    → req.request ≡ 2
    → let a = block_address s.prog.addr req.value in
      Returns
        (λ r t.
          Answer rom a
            (req.value == 0)
            (cfg.dfu_upload && in_app_area chip a dfu_transfer_size)
            s
            r
            t)
        (usbdfu_control_request env cfg chip req len s)
unfolding usbdfu_control_request switch_request handle_request
request-Answer env cfg chip rom req len s same z u =
    subst
      (λ o.
        Returns (λ r t. Answered env cfg chip rom same req s z (req.value == 0) r t)
          (switch_request env cfg chip o req len s))
      (sym (ap dfu_req u)) (upload_request-Answer env cfg chip rom same req s z)

-- The area that may be read, and the answer to a request, in numbers that do not wrap around: the
-- commands, the bytes of the flash from an address on, or an error.
abbrev pub holds_block : Chip → ℕ → Bool
holds_block chip a = leb 0x8002000 a && leb (a + 4096) (0x8000000 + chip.flash_size * 1024)

abbrev pub Uploaded : (ℕ → ℕ) → ℕ → Bool → Bool → Dfu → Reply → Dfu → Type 0
Uploaded rom a true _ s r t =
    (r.len ≡ 3)
    × (t.usbdfu_state ≡ upload_idle)
    × (t.control_buffer ≡ blit (0 ∷ 0x21 ∷ 0x41 ∷ []) s.control_buffer)
Uploaded rom a false true s r t =
    (r.len ≡ 4096)
    × (t.usbdfu_state ≡ upload_idle)
    × ((i : ℕ) → i < 4096 → get_elem? t.control_buffer i ≡ some (rom (a + i) % 256))
Uploaded rom a false false s r t =
    (r.len ≡ 0) × (t.usbdfu_state ≡ error) × (t.control_buffer ≡ s.control_buffer)

rom_bytes-get_elem? :
    (rom : ℕ → ℕ) (n a i : ℕ)
    → a + n < 2 ^ 32
    → i < n
    → get_elem? (rom_bytes rom n a) i ≡ some (rom (a + i) % 256)
unfolding rom_bytes
rom_bytes-get_elem? rom zero a i fits lt = absurd (omega arith)
rom_bytes-get_elem? rom (suc n) a zero fits lt = rw add-zero refl
rom_bytes-get_elem? rom (suc n) a (suc i) fits lt =
    let next : u32 (a + 1) ≡ a + 1 = omega arith in
    let place : a + suc i ≡ a + 1 + i = omega arith in
    rw (next, place) (rom_bytes-get_elem? rom n (a + 1) i (omega arith) (omega arith))

module _ (rom : ℕ → ℕ) (s : Dfu) (r : Reply) (t : Dfu) where
  uploaded :
      (a : ℕ) (held : Bool)
      → a + 4096 < 2 ^ 32
      → Answer rom a false held s r t
      → Uploaded rom a false held s r t
  uploaded a true fits (len, state, bytes) = (
    len,
    state,
    λ i lt. ap (λ buf. get_elem? buf i) bytes ∙ rom_bytes-get_elem? rom 4096 a i fits lt,
  )
  uploaded a false fits answer = answer

  Answer-Uploaded :
      (a b : ℕ) (first inside held : Bool)
      → (first ≡ false → a ≡ b)
      → (first ≡ false → inside ≡ held)
      → b + 4096 < 2 ^ 32
      → (up : Bool) → Answer rom a first (up && inside) s r t
      → Uploaded rom b first (up && held) s r t
  Answer-Uploaded a b true inside held same agree fits up answer = answer
  Answer-Uploaded a b false inside held same agree fits up answer = uploaded b (up && held) fits (
      subst (λ c. Answer rom c false (up && held) s r t) (same refl)
        (subst (λ c. Answer rom a false (up && c) s r t) (agree refl) answer))

block_pos : (v : ℕ) → (v == 0) ≡ false → 0 < v
block_pos v e = ground arith

in_area_agrees :
    (chip : Chip) (a : ℕ)
    → chip.flash_size < 2 ^ 16
    → a + 4096 < 2 ^ 32
    → in_app_area chip a dfu_transfer_size ≡ holds_block chip a
unfolding in_app_area
in_area_agrees chip a size fits = ground arith

block_place :
    (addr value : ℕ)
    → value ≢ 1
    → addr + value * 4096 < 2 ^ 32
    → 0 < value
    → block_address addr value ≡ addr + (value - 2) * 4096
unfolding block_address
block_place addr zero one fits pos = absurd (omega arith)
block_place addr (suc zero) one fits pos = absurd (one refl)
block_place addr (suc (suc v)) one fits pos = omega arith

-- DFU_UPLOAD of block 0 is answered with the three commands. The upload of block `v` from 2 on is that
-- of the 4096 bytes at the target address and `(v - 2) * 4096`: if uploads are built in and these bytes
-- lie behind the boot loader and within the flash, the control buffer is those bytes of the flash, one
-- by one; if not, no bytes are sent, and the application is in the error state. This is for a flash
-- that answers with the bytes of `rom`, whatever was done before, for addresses whose sums stay below
-- 2 ^ 32 and a flash size that fits its register. Block 1 is left out.
pub upload-Uploaded :
    (env : Env) (cfg : Config) (chip : Chip) (rom : ℕ → ℕ) (req : SetupData) (len : ℕ) (s : Dfu)
    → HoldsRom env rom
    → IsSized s
    → chip.flash_size < 2 ^ 16
    → req.request ≡ 2
    → req.value ≢ 1
    → s.prog.addr + req.value * 4096 + 4096 < 2 ^ 32
    → let a = s.prog.addr + (req.value - 2) * 4096 in
      Returns
        (λ r t. Uploaded rom a (req.value == 0) (cfg.dfu_upload && holds_block chip a) s r t)
        (usbdfu_control_request env cfg chip req len s)
upload-Uploaded env cfg chip rom req len s same z size u one fits =
    let a = s.prog.addr + (req.value - 2) * 4096 in
    let base = block_address s.prog.addr req.value in
    let place = block_place s.prog.addr req.value one (omega arith) in
    Returns_mono (request-Answer env cfg chip rom req len s same z u) λ r t answer.
      Answer-Uploaded rom s r t base a (req.value == 0) (in_app_area chip base dfu_transfer_size)
        (holds_block chip a) (λ e. place (block_pos req.value e))
        (λ e. rw (place (block_pos req.value e)) (in_area_agrees chip a size (omega arith)))
        (omega arith) cfg.dfu_upload answer
