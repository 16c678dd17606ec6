-- ===== src/Worker/Batch/Bound.antt =====
-- What the parameters of a statement become.
use sqlite_daemon.Prelude.{
  ℕ, suc, ◌+◌, ◌-◌, ◌^◌, ◌≤◌, ◌<◌, ◌≡◌, refl, ap, ◌∙◌, List, [], ◌∷◌, none, some, negsuc, length,
  length-append, u64_as_i64, arith,
}
use sqlite_daemon.Protocol.{Json, Value, null, bool, number, string, array, object, Statement}
use sqlite_daemon.Sqlx.{Query, query, bind, Arg}
use sqlite_daemon.Worker.Batch.{number_arg, bind_param, bind_params, statement_query}

module _ (J : Json) where
  open J use {Number, Float, as_i64, as_u64}

  -- A number that fits u64 and not i64 is bound as a negative integer: the number less 2 ^ 64.
  pub number_arg_negative :
      (n : Number) (u : ℕ)
      → as_i64 n ≡ none
      → as_u64 n ≡ some u
      → 2 ^ 63 ≤ u
      → u < 2 ^ 64
      → (k : ℕ) × (number_arg J n ≡ Arg.integer (negsuc k)) × (u + suc k ≡ 2 ^ 64)
  unfolding number_arg u64_as_i64
  number_arg_negative n u not_i64 is_u64 low high = (2 ^ 64 - 1 - u, ground arith, omega arith)

  bind_param_lem : (q : Query Float) (v : Value J) → (a : Arg Float) × (bind_param J q v ≡ bind q a)
  unfolding bind_param
  bind_param_lem q null = (Arg.null, refl)
  bind_param_lem q (bool b) = (_, refl)
  bind_param_lem q (number n) = (_, refl)
  bind_param_lem q (string s) = (_, refl)
  bind_param_lem q (array a) = (_, refl)
  bind_param_lem q (object m) = (_, refl)

  bind_params_lem :
      (params : List (Value J)) (q : Query Float)
      → ((bind_params J q params).sql ≡ q.sql)
        × (length (bind_params J q params).args ≡ length q.args + length params)
  unfolding bind_params
  bind_params_lem [] q = (refl, omega arith)
  bind_params_lem (v ∷ params) q =
      let (a, e) = bind_param_lem q v in
      let (same, count) = bind_params_lem params (bind_param J q v) in
      let one : length (bind_param J q v).args ≡ length q.args + 1 =
        ap (λ (x : Query Float). length x.args) e ∙ length-append q.args (a ∷ []) in
      (same ∙ ap (λ (x : Query Float). x.sql) e, omega arith)

  -- The query of a statement has its text, and one argument for each of its parameters.
  pub statement_query_lem :
      (stmt : Statement J)
      → ((statement_query J stmt).sql ≡ stmt.sql)
        × (length (statement_query J stmt).args ≡ length stmt.params)
  unfolding statement_query
  statement_query_lem stmt =
      let (same, count) = bind_params_lem stmt.params (query stmt.sql) in (same, omega arith)
