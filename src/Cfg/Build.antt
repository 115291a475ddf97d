-- ===== src/Cfg/Build.antt =====
-- `vnt_cfg_build` of src/compiler/cfg.c up to its clean-up passes: the blocks of the statements.
-- An allocation is taken to succeed; the growth of the block array is modelled with its bound, for
-- blocks of 40 bytes. `none` says that a loop of the model ran out of fuel.
use vnt.Base.{
  ℕ, zero, suc, ◌+◌, ◌*◌, ◌/◌, ◌%◌, ◌^◌, Bool, true, false, not, ◌&&◌, ◌||◌, Option, none, some,
  List, [], ◌∷◌, ◌++◌, ltb, leb, ◌==◌, if◌then◌else◌, length, get_or, set,
}
use vnt.Ir.Node.{
  Opcode, EdgeRole, Node, Program, no_node, node, node_count, same_role, program, if_op, while_op,
  function, struct, break, continue,
}
use vnt.Cfg.Graph.{blank_block, Terminator, Block, Cfg, fallthrough, branch, jump, exit}
use vnt.Cfg.Effects.{child_role, ◌>>=◌}

pub record Builder : Type 0 where
  pub blocks : List Block
  pub capacity : ℕ
  pub exit_block : ℕ
  pub failed : Bool

abbrev pub block_size : ℕ
block_size = 40

abbrev pub fail : Builder → Builder
fail b = record b { failed = true }

-- The capacity that the block array grows to.
abbrev pub grown : ℕ → ℕ
grown capacity = if capacity == 0 then 32 else capacity * 2 % 2 ^ 64

abbrev pub append_block : Block → ℕ → Builder → ℕ × Builder
append_block x cap b = (length b.blocks, record b { blocks = b.blocks ++ x ∷ []; capacity = cap })

unfoldable pub new_block : Block → Builder → ℕ × Builder
new_block x b =
    if length b.blocks == b.capacity
    then (if ltb (grown b.capacity) b.capacity || ltb (no_node / block_size) (grown b.capacity)
        then (no_node, fail b)
        else append_block x (grown b.capacity) b)
    else append_block x b.capacity b

-- Those statements of a chain that a sequence is made of.
abbrev pub is_item : EdgeRole → Bool → Node → Bool
is_item role skip n =
    same_role n.role role
    && not (skip && elim n.opcode [ function ↦ true | struct ↦ true | _ ↦ false ])

unfoldable pub items_from : Program → EdgeRole → Bool → ℕ → ℕ → Option (List ℕ)
items_from ir role skip zero c = none
items_from ir role skip (suc fuel) c =
    let rest = items_from ir role skip fuel (node ir c).next_sibling in
    if c == no_node
    then some []
    else if is_item role skip (node ir c)
    then (rest >>= λ cs. some (c ∷ cs))
    else rest

-- return b->failed ? VNT_IR_NO_NODE : entry
abbrev pub finish : ℕ × Builder → ℕ × Builder
finish r = (if r.1.failed then no_node else r.0, r.1)

-- A statement's index, what follows it, and the targets of `break` and `continue`.
abbrev pub Statement : Type 0
Statement = ℕ → ℕ → ℕ → ℕ → Builder → Option (ℕ × Builder)

module _ (statement : Statement) (break_target continue_target : ℕ) where
  -- The loop from the last item to the first.
  unfoldable pub build_items : List ℕ → ℕ → Builder → Option (ℕ × Builder)
  build_items [] next b = some (next, b)
  build_items (c ∷ cs) next b = build_items cs next b >>= λ r.
      if r.1.failed then some r else statement c r.0 break_target continue_target r.1

  unfoldable pub build_list : List ℕ → ℕ → Builder → Option (ℕ × Builder)
  build_list [] next b = some (next, b)
  build_list (c ∷ cs) next b = build_items (c ∷ cs) next b >>= λ r. some (finish r)

  unfoldable pub build_sequence : Program → ℕ → EdgeRole → ℕ → Bool → Builder → Option (ℕ × Builder)
  unfolding build_list
  build_sequence ir parent role next skip b =
      let items = items_from ir role skip (suc (node_count ir)) (node ir parent).first_child in
      if leb (node_count ir) parent
      then some (no_node, fail b)
      else items >>= λ cs. build_list cs next b

abbrev pub a_block : Terminator → ℕ → ℕ → ℕ → ℕ → Block
a_block terminator instruction condition on_true on_false = record {
  instruction = instruction;
  condition = condition;
  true_successor = on_true;
  false_successor = on_false;
  terminator = terminator;
}

-- cfg->blocks[test].true_successor = body
abbrev pub set_true_successor : ℕ → ℕ → Builder → Builder
set_true_successor test body b = record b {
  blocks = set b.blocks test (record (get_or b.blocks test blank_block) { true_successor = body });
}

-- The end of a `while`, behind its body: `test` is its branch.
unfoldable pub close_loop : ℕ → ℕ × Builder → ℕ × Builder
close_loop test body =
    if body.0 == no_node
    then (no_node, fail body.1)
    else (test, set_true_successor test body.0 body.1)

unfoldable pub jump_to : ℕ → ℕ → Builder → ℕ × Builder
jump_to index target b =
    if target == no_node
    then (no_node, fail b)
    else new_block (a_block jump index no_node target no_node) b

-- A statement by its opcode; `again` builds the statements inside it.
unfoldable pub build_by : Program → Statement → Opcode → Statement
unfolding jump_to close_loop
build_by ir again program index next break_target continue_target b =
    build_sequence again break_target continue_target ir index EdgeRole.statement next false b
build_by ir again if_op index next break_target continue_target b =
    let cond = child_role ir index EdgeRole.condition in
    if cond == no_node
    then some (no_node, fail b)
    else build_sequence again break_target continue_target ir index EdgeRole.then_role next false b
      >>= λ on_true.
          build_sequence again break_target continue_target ir index EdgeRole.else_role next false
            on_true.1
          >>= λ on_false.
              some (new_block (a_block branch no_node cond on_true.0 on_false.0) on_false.1)
build_by ir again while_op index next break_target continue_target b =
    let cond = child_role ir index EdgeRole.condition in
    let test = new_block (a_block branch no_node cond no_node next) b in
    if cond == no_node
    then some (no_node, fail b)
    else if test.0 == no_node
    then some test
    else build_sequence again next test.0 ir index EdgeRole.body test.0 false test.1 >>= λ body.
        some (close_loop test.0 body)
build_by ir again Opcode.return index next break_target continue_target b =
    some (new_block (a_block Terminator.return index no_node b.exit_block no_node) b)
build_by ir again break index next break_target continue_target b =
    some (jump_to index break_target b)
build_by ir again continue index next break_target continue_target b =
    some (jump_to index continue_target b)
build_by ir again function index next break_target continue_target b = some (next, b)
build_by ir again struct index next break_target continue_target b = some (next, b)
build_by ir again _ index next break_target continue_target b =
    some (new_block (a_block fallthrough index no_node next no_node) b)

unfoldable pub build_statement : Program → ℕ → Statement
build_statement ir zero index next break_target continue_target b = none
build_statement ir (suc fuel) index next break_target continue_target b =
    if b.failed || leb (node_count ir) index
    then some (no_node, b)
    else build_by ir (build_statement ir fuel) (node ir index).opcode index next break_target
        continue_target b

-- The blocks so far and the entries, in the order in which they are added.
abbrev pub Entries : Type 0
Entries = Builder × List ℕ

-- A sequence that begins an entry; the inner `none` says that the build failed.
unfoldable pub build_entry : Program → ℕ → EdgeRole → Bool → Entries → Option (Option Entries)
build_entry ir parent role skip s =
    build_sequence (build_statement ir (suc (node_count ir))) no_node no_node ir parent role
      s.0.exit_block skip s.0
    >>= λ r. some (if r.1.failed || r.0 == no_node then none else some (r.1, s.1 ++ r.0 ∷ []))

abbrev pub is_function : Node → Bool
is_function n = elim n.opcode [ function ↦ true | _ ↦ false ]

-- goto fail, or go on
abbrev pub unless_failed :
    {B : Type 0} → Option Entries → (Entries → Option (Option B)) → Option (Option B)
unless_failed none f = some none
unless_failed (some s) f = f s

-- for (i = ...; n nodes are left; ++i)
unfoldable pub build_functions : Program → ℕ → ℕ → Entries → Option (Option Entries)
build_functions ir zero i s = some (some s)
build_functions ir (suc n) i s =
    if is_function (node ir i)
    then (build_entry ir i EdgeRole.body false s >>= λ r.
        unless_failed r (build_functions ir n (i + 1)))
    else build_functions ir n (i + 1) s

abbrev pub no_blocks : Builder
no_blocks = record { blocks = []; capacity = 0; exit_block = 0; failed = false }

abbrev pub with_exit : ℕ × Builder → Builder
with_exit r = record (r.1) { exit_block = r.0 }

abbrev pub to_cfg : Entries → Cfg
to_cfg s = record { blocks = s.0.blocks; entries = s.1; exit_block = s.0.exit_block }

-- The graph before the clean-up passes.
unfoldable pub build_graph : Program → Option (Option Cfg)
build_graph ir =
    let first = new_block (a_block exit no_node no_node no_node no_node) no_blocks in
    if first.0 == no_node
    then some none
    else build_entry ir ir.root EdgeRole.statement true (with_exit first, []) >>= λ r.
        unless_failed r (build_functions ir (node_count ir) 0) >>= λ q.
        unless_failed q (λ s. some (some (to_cfg s)))
