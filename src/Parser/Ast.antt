-- ===== src/Parser/Ast.antt =====
-- include/vnt/ast.h: the syntax tree. A `next` chain of nodes is a list of them, a count field is its
-- length, and a float literal is kept as the bytes that `strtod` reads.
use vnt.Base.{Bool, Option, List}
use vnt.Base.Int.{ℤ}
use vnt.Ir.Node.{Name, BinaryOperator, UnaryOperator}

mutual
  pub data Ast : Type 0 where
    program : Asts → Ast
    print_statement : Ast → Ast
    if_statement : Ast → Asts → Asts → Ast
    while_statement : Ast → Asts → Ast
    -- name, parameters, their types, return type, unsafe, body
    function_declaration : Name → List Name → List (Option Name) → Option Name → Bool → Asts → Ast
    struct_declaration : Name → List Name → Ast
    function_call : Name → Asts → Ast
    return_statement : Ast → Ast
    bare_return : Ast
    break_statement : Ast
    continue_statement : Ast
    string_literal : Name → Ast
    integer_literal : ℤ → Ast
    float_literal : Name → Ast
    boolean_literal : Bool → Ast
    null_literal : Ast
    array_literal : Asts → Ast
    -- name, declared type, value, whether it updates an existing variable
    variable_declaration : Name → Option Name → Ast → Bool → Ast
    variable : Name → Ast
    index_expression : Ast → Ast → Ast
    member_expression : Ast → Name → Ast
    assignment : Ast → Ast → Ast
    binary_expression : Ast → Ast → BinaryOperator → Ast
    unary_expression : Ast → UnaryOperator → Ast
    unsafe_block : Asts → Ast
    asm_statement : Name → Bool → Ast

  pub data Asts : Type 0 where
    no_asts : Asts
    ast_cons : Ast → Asts → Asts

-- ast_append
unfoldable pub ast_append : Asts → Ast → Asts
ast_append no_asts a = ast_cons a no_asts
ast_append (ast_cons x xs) a = ast_cons x (ast_append xs a)
