-- ===== src/Command.antt =====
-- cpp/include/Command.h and cpp/src/Command.cpp. `operator<<` is declared there and defined nowhere.
use codis_client.Prelude.{
  ℕ, suc, ◌+◌, ◌-◌, ◌≡◌, ap, ◌∙◌, not, List, [], ◌∷◌, ◌++◌, arith, ◌==◌, if◌then◌else◌, length,
  Bytes, All, append-nil, append_assoc, ==_iff, ==_ne,
}
use codis_client.Utils.{split}
use codis_client.Utils.Split.{join, Lacks, EndsFull, split-join}

pub record Command : Type 0 where
  pub args : List Bytes

-- `Command(arg)`.
abbrev pub command : Bytes → Command
command arg = record { args = arg ∷ [] }

-- `c(arg)`, of a `std::string` and of a C string alike.
infixl 60 ◌◃◌
abbrev pub ◌◃◌ : Command → Bytes → Command
c ◃ arg = record { args = c.args ++ arg ∷ [] }

-- `for (i …) command(values[i])`.
unfoldable pub add_args : Command → List Bytes → Command
add_args c [] = c
add_args c (x ∷ xs) = add_args (c ◃ x) xs

-- The rounds from `i` on, `args_` having `size` entries.
to_string_rounds : ℕ → ℕ → List Bytes → Bytes → Bytes
to_string_rounds size i [] out = out
to_string_rounds size i (a ∷ rest) out =
    to_string_rounds size (suc i) rest (out ++ a ++ (if not (i == size - 1) then 32 ∷ [] else []))

unfoldable pub to_string : Command → Bytes
unfolding to_string_rounds
to_string c = to_string_rounds (length c.args) 0 c.args []

pub args-add_args : (c : Command) (xs : List Bytes) → (add_args c xs).args ≡ c.args ++ xs
unfolding add_args
args-add_args c [] = rw append-nil
args-add_args c (x ∷ xs) = args-add_args (c ◃ x) xs ∙ append_assoc c.args (x ∷ []) xs

to_string_rounds-join :
    (size i : ℕ) (xs : List Bytes) (out : Bytes)
    → i + length xs ≡ size
    → to_string_rounds size i xs out ≡ out ++ join 32 xs
unfolding to_string_rounds join
to_string_rounds-join size i [] out h = rw append-nil
to_string_rounds-join size i (a ∷ []) out h =
    rw ((==_iff i (size - 1)).1 (omega arith)) (append-nil (out ++ a))
to_string_rounds-join size i (a ∷ b ∷ xs) out h = rw (==_ne i (size - 1) (omega arith)) (
    to_string_rounds-join size (suc i) (b ∷ xs) (out ++ a ++ 32 ∷ []) (omega arith)
    ∙ simp append_assoc)

-- `ToString` puts one space between the arguments, so that `split` at spaces gives them back when
-- no argument has a space in it and the last one is not empty.
split-to_string :
    (c : Command) → All (Lacks 32) c.args → EndsFull c.args → split (to_string c) 32 ≡ c.args
unfolding to_string
split-to_string c h full =
    ap (λ s. split s 32) (to_string_rounds-join (length c.args) 0 c.args [] (omega arith))
    ∙ split-join 32 c.args h full
