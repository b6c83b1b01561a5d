-- ===== src/Job/Environment.antt =====
-- `mergeEnv`: the variables that a container ends up with.
use batch_job_controller.Base.{
  get_last?, get_last?-append, append_assoc, ap, String, true, List, [], ◌∷◌, ◌++◌, some, ◌≡◌, refl,
  arith, ◌==◌, eq_iff, if◌then◌else◌, Bool-cases, inl, inr,
}
use batch_job_controller.Base.Int.{itoa}
use batch_job_controller.Config.{Config}
use batch_job_controller.Job.{
  EnvVar, Container, Templates, CustomPodEnv, is_reserved, keep_env, extend_env, own_env, merge_env,
  env_node_name, env_execution_id, env_namespace, env_callback_service_name,
  env_callback_service_port, env_callback_service_result_url, env_callback_service_file_url,
  env_callback_service_event_url, callback_url,
}

-- the values of a name, in the order of the list; Kubernetes lets the last one win
abbrev pub values_of : String → List EnvVar → List String
values_of name [] = []
values_of name (e ∷ es) =
    let rest = values_of name es in if e.name == name then e.value ∷ rest else rest

values_of-append :
    (name : String) (xs ys : List EnvVar)
    → values_of name (xs ++ ys) ≡ values_of name xs ++ values_of name ys
values_of-append name [] ys = refl
values_of-append name (x ∷ xs) ys = ground (arith, values_of-append name xs ys)

same_reserved : (a b : String) → (a == b) ≡ true → is_reserved a ≡ is_reserved b
same_reserved a b h = ap (λ (k : String). is_reserved k) ((eq_iff a b).0 h)

-- Of the container's variables the reserved ones go, and the others stay.
values_of-keep_env :
    (name : String) (es : List EnvVar)
    → values_of name (keep_env es) ≡ (if is_reserved name then [] else values_of name es)
unfolding keep_env
values_of-keep_env name [] = ground arith
values_of-keep_env name (e ∷ es) = elim (Bool-cases (is_reserved e.name)) [
  | inl y ↦ elim (Bool-cases (e.name == name)) [
    | inl q ↦ ground (arith, values_of-keep_env name es, same_reserved e.name name)
    | inr q ↦ ground (arith, values_of-keep_env name es)
  ]
  | inr n ↦ elim (Bool-cases (e.name == name)) [
    | inl q ↦ ground (arith, values_of-keep_env name es, same_reserved e.name name)
    | inr q ↦ ground (arith, values_of-keep_env name es)
  ]
]

get_last?-append_append :
    {A : Type 0} (xs ys : List A) (y : A) → get_last? (xs ++ (ys ++ y ∷ [])) ≡ some y
get_last?-append_append xs ys y = rw (← append_assoc) (get_last?-append (xs ++ ys) y)

module _ (t : Templates) (cfg : Config) (node_name id address : String) (c : Container)
    (extender : List CustomPodEnv) where
  abbrev merged : List EnvVar
  merged = merge_env t cfg node_name id address c extender

  abbrev extended : List EnvVar
  extended = extend_env extender cfg node_name id address c

  abbrev own : List EnvVar
  own = own_env t cfg node_name id address

  -- The values of a variable in the merged environment are, in this order: the container's own, unless
  -- the name is one of the five reserved ones; those of the extenders; those of the controller.
  pub values_of-merge_env :
      (name : String)
      → values_of name (merge_env t cfg node_name id address c extender)
        ≡ (if is_reserved name then [] else values_of name c.env)
          ++ (values_of name (extend_env extender cfg node_name id address c)
              ++ values_of name (own_env t cfg node_name id address))
  unfolding merge_env
  values_of-merge_env name = rw (values_of-append, values_of-keep_env, values_of-append) refl

  last_of_own :
      (name value : String)
      → values_of name own ≡ value ∷ []
      → get_last? (values_of name merged) ≡ some value
  last_of_own name value h =
      rw (values_of-merge_env name, h)
        (get_last?-append_append (if is_reserved name then [] else values_of name c.env)
          (values_of name extended) value)

  -- Whatever the container and the extenders set, the last value of each of the eight variables of the
  -- controller, which is the one that the container sees, is the controller's.
  pub own_env_wins :
      (get_last? (values_of env_execution_id merged) ≡ some id)
      × (get_last? (values_of env_namespace merged) ≡ some cfg.namespace)
      × (get_last? (values_of env_node_name merged) ≡ some node_name)
      × (get_last? (values_of env_callback_service_name merged) ≡ some address)
      × (get_last? (values_of env_callback_service_port merged)
          ≡ some (itoa cfg.callback_service_port))
      × (get_last? (values_of env_callback_service_result_url merged)
          ≡ some (callback_url t cfg node_name id address "/result"))
      × (get_last? (values_of env_callback_service_file_url merged)
          ≡ some (callback_url t cfg node_name id address "/file"))
      × (get_last? (values_of env_callback_service_event_url merged)
          ≡ some (callback_url t cfg node_name id address "/event"))
  unfolding own_env
  own_env_wins = (
    last_of_own env_execution_id _ refl,
    last_of_own env_namespace _ refl,
    last_of_own env_node_name _ refl,
    last_of_own env_callback_service_name _ refl,
    last_of_own env_callback_service_port _ refl,
    last_of_own env_callback_service_result_url _ refl,
    last_of_own env_callback_service_file_url _ refl,
    last_of_own env_callback_service_event_url _ refl,
  )
