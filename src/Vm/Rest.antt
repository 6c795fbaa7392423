-- ===== src/Vm/Rest.antt =====
-- src/jml_vm.c: the array of the rest of the arguments in `jml_vm_call`.
use jml.Base.{
  ℕ, zero, suc, ◌+◌, ◌-◌, ◌≤◌, ◌<◌, ◌≡◌, refl, sym, ap, ◌∙◌, List, [], ◌∷◌, ◌++◌, length, get_or,
  take, append_assoc, append-nil, arith,
}
use jml.Value.{Value, none_val}
use jml.Bytecode.Array.{ValueArray, value_array_init, value_array_write}
use jml.Bytecode.Arrays.{IsArray, contents, value_array_write-appends}
use jml.Vm.Coroutine.{Coroutine, Vm, read_cell}
use jml.Vm.Running.{IsRunning, live}
use jml.Vm.Call.{Callee, item_count, pack, rest_array}

cells_from : Coroutine → ℕ → ℕ → List Value
cells_from c zero p = []
cells_from c (suc n) p = read_cell c p ∷ cells_from c n (p + 1)

pack-contents :
    (c : Coroutine) (n p : ℕ) (array : ValueArray)
    → IsArray array
    → contents (pack c n p array) ≡ contents array ++ cells_from c n p
unfolding pack cells_from
pack-contents c zero p array is = sym (append-nil (contents array))
pack-contents c (suc n) p array is =
    let (is', tail, _) = value_array_write-appends array (read_cell c p) is in
    pack-contents c n (p + 1) (value_array_write array (read_cell c p)) is'
    ∙ ap (λ l. l ++ cells_from c n (p + 1)) tail
    ∙ append_assoc (contents array) (read_cell c p ∷ []) (cells_from c n (p + 1))

take-suc {ℓ} :
    {A : Type ℓ} (n : ℕ) (xs : List A) (d : A)
    → n < length xs
    → take (suc n) xs ≡ take n xs ++ get_or xs n d ∷ []
take-suc n [] d h = absurd (omega arith)
take-suc zero (x ∷ xs) d h = refl
take-suc (suc n) (x ∷ xs) d h = ap (◌∷◌ x) (take-suc n xs d (omega arith))

take-cells_from :
    (c : Coroutine) (n i : ℕ)
    → i + n ≤ length c.cells
    → take i c.cells ++ cells_from c n (c.stack + i) ≡ take (i + n) c.cells
unfolding cells_from
take-cells_from c zero i h =
    let sum : i ≡ i + 0 = omega arith in append-nil (take i c.cells) ∙ ap (λ k. take k c.cells) sum
take-cells_from c (suc n) i h =
    let here : c.stack + i - c.stack ≡ i = omega arith in
    let next : c.stack + i + 1 ≡ c.stack + suc i = omega arith in
    let sum : suc i + n ≡ i + suc n = omega arith in
    ap (λ k. take i c.cells ++ get_or c.cells k none_val ∷ cells_from c n (c.stack + i + 1)) here
    ∙ ap (λ k. take i c.cells ++ get_or c.cells i none_val ∷ cells_from c n k) next
    ∙ sym (append_assoc (take i c.cells) (get_or c.cells i none_val ∷ []) _)
    ∙ ap (λ l. l ++ cells_from c n (c.stack + suc i))
        (sym (take-suc i c.cells none_val (omega arith)))
    ∙ take-cells_from c n (suc i) (omega arith)
    ∙ ap (λ k. take k c.cells) sum

value_array_init-IsArray : IsArray value_array_init
unfolding value_array_init
value_array_init-IsArray = record { inside = omega arith; cells = refl }

-- On a coroutine in order, with as many values on the stack as the array takes, the array of a variadic call
-- has the arguments from arity on, in their order: with the values below them they make the stack of the
-- caller.
pub rest_array-contents :
    {vm : Vm} (f : Callee) (arg_count : ℕ)
    → IsRunning vm
    → item_count f arg_count ≤ vm.running.stack_top - vm.running.stack
    → take (vm.running.stack_top - vm.running.stack - item_count f arg_count) vm.running.cells
        ++ contents (rest_array vm f arg_count)
      ≡ live vm
unfolding rest_array value_array_init
rest_array-contents {vm} f arg_count v h =
    let c = vm.running in
    let n = item_count f arg_count in
    let i = c.stack_top - c.stack - n in
    let start : c.stack_top - n ≡ c.stack + i = omega (arith, v.above) in
    let sum : i + n ≡ c.stack_top - c.stack = omega arith in
    ap (λ l. take i c.cells ++ l)
      (pack-contents c n (c.stack_top - n) value_array_init value_array_init-IsArray)
    ∙ ap (λ p. take i c.cells ++ cells_from c n p) start
    ∙ take-cells_from c n i (omega (arith, v.cells, v.room, v.above))
    ∙ ap (λ k. take k c.cells) sum
