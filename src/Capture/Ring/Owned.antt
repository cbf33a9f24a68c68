-- ===== src/Capture/Ring/Owned.antt =====
-- Which blocks of the ring the program owns, and how many.
use pcap_constrictor_afpacke.Base.{
  ℕ, zero, suc, ◌+◌, ◌≤◌, ◌<◌, ◌≡◌, refl, arith, true, false, if◌then◌else◌, some, List, [], ◌∷◌,
  length, get_elem?,
}
use pcap_constrictor_afpacke.Bytes.{Bytes}
use pcap_constrictor_afpacke.Capture.Ring.{
  Block, RingEvent, filled, filled_in_poll, polled, set_block, kernel_fill,
}

abbrev pub users : List Block → ℕ
users [] = 0
users (b ∷ blocks) = (if b.is_user then 1 else 0) + users blocks

-- The block of this number is the program's.
abbrev pub IsOwned : ℕ → List Block → Type 0
IsOwned index [] = ⊥
IsOwned zero (b ∷ blocks) = b.is_user ≡ true
IsOwned (suc index) (b ∷ blocks) = IsOwned index blocks

abbrev pub AllSized : ℕ → List Block → Type 0
AllSized size [] = Unit {0}
AllSized size (b ∷ blocks) = (length b.contents ≡ size) × AllSized size blocks

-- The kernel hands over whole blocks.
abbrev pub AllFilled : ℕ → List RingEvent → Type 0
AllFilled size [] = Unit {0}
AllFilled size (filled index contents ∷ events) = (length contents ≡ size) × AllFilled size events
AllFilled size (filled_in_poll index contents ∷ events) =
    (length contents ≡ size) × AllFilled size events
AllFilled size (polled answer ∷ events) = AllFilled size events

abbrev pub give_back : Block → Block
give_back b = record b { is_user = false }

pub length-set_block :
    (index : ℕ) (b : Block) (blocks : List Block)
    → length (set_block index b blocks) ≡ length blocks
length-set_block index b [] = refl
length-set_block zero b (c ∷ blocks) = refl
length-set_block (suc index) b (c ∷ blocks) = omega (arith, length-set_block index b blocks)

pub length-kernel_fill :
    (index : ℕ) (contents : Bytes) (blocks : List Block)
    → length (kernel_fill index contents blocks) ≡ length blocks
length-kernel_fill index contents [] = refl
length-kernel_fill zero contents (b ∷ blocks) = refl
length-kernel_fill (suc index) contents (b ∷ blocks) =
    omega (arith, length-kernel_fill index contents blocks)

pub users-le : (blocks : List Block) → users blocks ≤ length blocks
users-le [] = omega arith
users-le (b ∷ blocks) = ground (arith, users-le blocks)

pub users-give_back :
    (index : ℕ) (b : Block) (blocks : List Block)
    → IsOwned index blocks
    → get_elem? blocks index ≡ some b
    → users (set_block index (give_back b) blocks) + 1 ≡ users blocks
users-give_back index b [] o e = absurd o
users-give_back zero b (c ∷ blocks) o e = ground (arith, o, e)
users-give_back (suc index) b (c ∷ blocks) o e = omega (arith, users-give_back index b blocks o e)

pub users-kernel_fill :
    (index : ℕ) (contents : Bytes) (blocks : List Block)
    → users (kernel_fill index contents blocks) ≤ users blocks + 1
users-kernel_fill index contents [] = omega arith
users-kernel_fill zero contents (b ∷ blocks) = ground arith
users-kernel_fill (suc index) contents (b ∷ blocks) =
    omega (arith, users-kernel_fill index contents blocks)

pub AllSized-give_back :
    (size index : ℕ) (b : Block) (blocks : List Block)
    → AllSized size blocks
    → get_elem? blocks index ≡ some b
    → AllSized size (set_block index (give_back b) blocks)
AllSized-give_back size index b [] h e = tt
AllSized-give_back size zero b (c ∷ blocks) h e = (ground (arith, h.0, e), h.1)
AllSized-give_back size (suc index) b (c ∷ blocks) h e =
    (h.0, AllSized-give_back size index b blocks h.1 e)

pub AllSized-kernel_fill :
    (size index : ℕ) (contents : Bytes) (blocks : List Block)
    → AllSized size blocks
    → length contents ≡ size
    → AllSized size (kernel_fill index contents blocks)
AllSized-kernel_fill size index contents [] h e = tt
AllSized-kernel_fill size zero contents (b ∷ blocks) h e = (ground (arith, h.0, e), h.1)
AllSized-kernel_fill size (suc index) contents (b ∷ blocks) h e =
    (h.0, AllSized-kernel_fill size index contents blocks h.1 e)

-- A block that is there has the blocks' size, and is the program's if its status says so.
pub get_block :
    (size index : ℕ) (blocks : List Block)
    → AllSized size blocks
    → index < length blocks
    → (b : Block) × (get_elem? blocks index ≡ some b) × (length b.contents ≡ size)
get_block size index [] h lt = absurd (omega arith)
get_block size zero (b ∷ blocks) h lt = (b, refl, h.0)
get_block size (suc index) (b ∷ blocks) h lt = get_block size index blocks h.1 (omega arith)

pub IsOwned-of :
    (index : ℕ) (b : Block) (blocks : List Block)
    → get_elem? blocks index ≡ some b
    → b.is_user ≡ true
    → IsOwned index blocks
IsOwned-of index b [] e u = absurd (ground (arith, e))
IsOwned-of zero b (c ∷ blocks) e u = ground (arith, e, u)
IsOwned-of (suc index) b (c ∷ blocks) e u = IsOwned-of index b blocks e u

pub users-owned : (index : ℕ) (blocks : List Block) → IsOwned index blocks → 0 < users blocks
users-owned index [] o = absurd o
users-owned zero (b ∷ blocks) o = ground (arith, o)
users-owned (suc index) (b ∷ blocks) o = omega (arith, users-owned index blocks o)

pub user_of_owned :
    (index : ℕ) (b : Block) (blocks : List Block)
    → get_elem? blocks index ≡ some b
    → IsOwned index blocks
    → b.is_user ≡ true
user_of_owned index b [] e o = absurd o
user_of_owned zero b (c ∷ blocks) e o = ground (arith, e, o)
user_of_owned (suc index) b (c ∷ blocks) e o = user_of_owned index b blocks e o
