-- ===== src/Cfg/Access.antt =====
-- What a block of include/vnt/cfg.h reads and writes, by the meaning of its statement: the
-- specification of collect_block_effects in src/compiler/cfg.c.
use vnt.Base.{ℕ, ◌<◌, ◌≡◌, ◌≢◌, ◌⊎◌, some, List}
use vnt.Ir.Node.{
  Name, Opcode, EdgeRole, Program, no_node, node, node_count, text, variable, variable_decl,
  reassign, print, return, assign,
}
use vnt.Cfg.Graph.{Block}
use vnt.Cfg.Reads.{Occurs}

module _ (ir : Program) where
  -- The first node of a chain of siblings that has a role.
  pub data FirstChild (role : EdgeRole) : ℕ → ℕ → Type 0 where
    at : {c : ℕ} → c ≢ no_node → (node ir c).role ≡ role → FirstChild role c c
    behind :
        {c d : ℕ}
        → c ≢ no_node
        → (node ir c).role ≢ role
        → FirstChild role (node ir c).next_sibling d
        → FirstChild role c d

  -- The operand of a node with a role.
  abbrev pub Operand : EdgeRole → ℕ → ℕ → Type 0
  Operand role i d = (i < node_count ir) × FirstChild role (node ir i).first_child d

module _ (ir : Program) (names : List Name) where
  -- A variable of an operand.
  abbrev pub InOperand : EdgeRole → ℕ → Name → Type 0
  InOperand role i x = (d : ℕ) × Operand ir role i d × Occurs ir names d x

  -- The target of an assignment is read where it is no variable, as an index or a dereference.
  abbrev pub InTarget : ℕ → Name → Type 0
  InTarget i x =
      (d : ℕ) × Operand ir EdgeRole.target i d
      × ((node ir d).opcode ≢ variable)
      × Occurs ir names d x

  -- The variables that a statement reads, by its opcode.
  abbrev pub StatementReads : Opcode → ℕ → Name → Type 0
  StatementReads variable_decl i x = InOperand EdgeRole.value i x
  StatementReads reassign i x = InOperand EdgeRole.value i x
  StatementReads print i x = InOperand EdgeRole.value i x
  StatementReads return i x = InOperand EdgeRole.value i x
  StatementReads assign i x = InTarget i x ⊎ InOperand EdgeRole.value i x
  StatementReads _ i x = Occurs ir names i x

  -- The variable that a statement writes: the name of a declaration with a value, of an assignment by
  -- name, or of the variable that an assignment has for its target.
  abbrev pub StatementWrites : Opcode → ℕ → Name → Type 0
  StatementWrites variable_decl i x =
      ((d : ℕ) × Operand ir EdgeRole.value i d) × ((node ir i).value ≡ text (some x))
  StatementWrites reassign i x = (node ir i).value ≡ text (some x)
  StatementWrites assign i x =
      (d : ℕ) × Operand ir EdgeRole.target i d
      × ((node ir d).opcode ≡ variable)
      × ((node ir d).value ≡ text (some x))
  StatementWrites _ i x = ⊥

  abbrev pub BlockReads : Block → Name → Type 0
  BlockReads b x =
      (b.condition ≢ no_node) × Occurs ir names b.condition x
      ⊎ (b.instruction ≢ no_node) × StatementReads (node ir b.instruction).opcode b.instruction x

  abbrev pub BlockWrites : Block → Name → Type 0
  BlockWrites b x =
      (b.instruction ≢ no_node) × StatementWrites (node ir b.instruction).opcode b.instruction x
