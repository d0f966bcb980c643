-- ===== src/ConfigCache/Coherence.antt =====
-- What the configuration cache answers when its calls follow each other.
use kakao_x_termux.Prelude.{
  ℕ, String, ◌≡◌, refl, Option, none, some, List, [], ◌∷◌, arith, ◌==◌, if◌then◌else◌, Option-cases,
  inl, inr,
}
use kakao_x_termux.Dict.{Dict, lookup, insert, lookup-insert}
use kakao_x_termux.Rules.{RoomRuleResponse}
use kakao_x_termux.ConfigCache.Entries.{
  Agrees, Agrees-insert, Agrees-remove, Agrees-remember, Agrees-empty, Agrees-update, Agrees-absent,
}
use kakao_x_termux.ConfigCache.{
  OptionRow, Tables, ConfigCache, init, stored_rule, list_room_bot_options_by_key, cached_rule,
  remember_rule, get_room_rule, invalidate_room_rule, set_room_rule, get_room_option_rows_by_key,
  set_room_option_row, invalidate_room_option_rows, reconcile_store, reconcile, upsert_room_rule,
  upsert_option_row, Configuration, post_room_rule, upsert_room_bot_options,
}

pub record IsCoherent (s : Configuration) : Type 0 where
  pub rules : Agrees (stored_rule s.tables) s.cache.room_rules
  pub options : Agrees (list_room_bot_options_by_key s.tables) s.cache.room_option_rows

pub stored_rule-upsert_room_rule :
    (rule : RoomRuleResponse) (t : Tables) (j : String)
    → stored_rule (upsert_room_rule rule t) j
      ≡ (if rule.room_key == j then some rule else stored_rule t j)
unfolding stored_rule upsert_room_rule
stored_rule-upsert_room_rule rule t j = lookup-insert rule.room_key j rule t.room_rules

pub list-upsert_option_row :
    (row : OptionRow) (t : Tables) (j : String)
    → list_room_bot_options_by_key (upsert_option_row row t) j ≡ (
        if row.room_key == j
        then insert row.bot_key row (list_room_bot_options_by_key t row.room_key)
        else list_room_bot_options_by_key t j)
unfolding list_room_bot_options_by_key upsert_option_row
list-upsert_option_row row t j = ground (
  arith,
  lookup-insert row.room_key j
      (insert row.bot_key row (list_room_bot_options_by_key t row.room_key)) t.room_bot_options,
)

-- The complete calls of the cache and of its writers.
pub data Call : Type 0 where
  reads_rule reads_options forgets_rule : String → Call
  forgets_options : Option String → Call
  posts : RoomRuleResponse → Call
  upserts : OptionRow → Call
  reconciles : Option String → ℕ → Call

unfoldable pub call : Call → Configuration → Configuration
unfolding get_room_rule get_room_option_rows_by_key invalidate_room_rule invalidate_room_option_rows
    post_room_rule upsert_room_bot_options reconcile
call (reads_rule k) s = record s { cache = (get_room_rule s.tables k s.cache).0 }
call (reads_options k) s = record s { cache = (get_room_option_rows_by_key s.tables k s.cache).0 }
call (forgets_rule k) s = record s { cache = invalidate_room_rule k s.cache }
call (forgets_options k) s = record s { cache = invalidate_room_option_rows k s.cache }
call (posts rule) s = post_room_rule rule s
call (upserts row) s = upsert_room_bot_options row s
call (reconciles error now) s = record s { cache = reconcile s.tables error now s.cache }

unfoldable pub call_all : List Call → Configuration → Configuration
unfolding call
call_all [] s = s
call_all (c ∷ cs) s = call_all cs (call c s)

get_room_rule-IsCoherent :
    (k : String) (t : Tables) (c : ConfigCache)
    → IsCoherent (record { tables = t; cache = c })
    → IsCoherent (record { tables = t; cache = (get_room_rule t k c).0 })
unfolding get_room_rule cached_rule remember_rule
get_room_rule-IsCoherent k t c h = elim (Option-cases (lookup k c.room_rules)) [
  | inl e ↦
      rw (e, get_room_rule)
        (record {
          rules = Agrees-remember (stored_rule t) k c.room_rules h.rules;
          options = h.options;
        })
  | inr (v, e) ↦ rw (e, get_room_rule) h
]

get_options-IsCoherent :
    (k : String) (t : Tables) (c : ConfigCache)
    → IsCoherent (record { tables = t; cache = c })
    → IsCoherent (record { tables = t; cache = (get_room_option_rows_by_key t k c).0 })
unfolding get_room_option_rows_by_key
get_options-IsCoherent k t c h = elim (Option-cases (lookup k c.room_option_rows)) [
  | inl e ↦
      rw (e, get_room_option_rows_by_key)
        (record {
          rules = h.rules;
          options = Agrees-remember (list_room_bot_options_by_key t) k c.room_option_rows h.options;
        })
  | inr (v, e) ↦ rw (e, get_room_option_rows_by_key) h
]

module _ (row : OptionRow) (t : Tables) (c : ConfigCache)
    (h : IsCoherent (record { tables = t; cache = c })) where
  abbrev read : String → Dict OptionRow
  read = list_room_bot_options_by_key t

  abbrev later : String → Dict OptionRow
  later = list_room_bot_options_by_key (upsert_option_row row t)

  abbrev written : Dict OptionRow
  written = insert row.bot_key row (read row.room_key)

  rules_after : Agrees (stored_rule (upsert_option_row row t)) c.room_rules
  unfolding stored_rule upsert_option_row
  rules_after = h.rules

  options_after :
      (v : Dict OptionRow)
      → lookup row.room_key c.room_option_rows ≡ some v
      → Agrees later (insert row.room_key (insert row.bot_key row v) c.room_option_rows)
  options_after v e = rw (h.options row.room_key v e) (
      Agrees-insert read later row.room_key written (list-upsert_option_row row t)
        c.room_option_rows h.options)

  set_room_option_row-IsCoherent :
      IsCoherent (record { tables = upsert_option_row row t; cache = set_room_option_row row c })
  unfolding set_room_option_row
  set_room_option_row-IsCoherent = elim (Option-cases (lookup row.room_key c.room_option_rows)) [
    | inl e ↦
        rw (e, set_room_option_row)
          (record {
            rules = rules_after;
            options =
                Agrees-absent read later row.room_key written (list-upsert_option_row row t)
                  c.room_option_rows e h.options;
          })
    | inr (v, e) ↦
        rw (e, set_room_option_row) (record { rules = rules_after; options = options_after v e })
  ]

post-IsCoherent :
    (rule : RoomRuleResponse) (s : Configuration)
    → IsCoherent s
    → IsCoherent (post_room_rule rule s)
unfolding post_room_rule set_room_rule remember_rule list_room_bot_options_by_key upsert_room_rule
post-IsCoherent rule s h = record {
  rules =
      Agrees-insert (stored_rule s.tables) (stored_rule (upsert_room_rule rule s.tables))
        rule.room_key (some rule) (stored_rule-upsert_room_rule rule s.tables) s.cache.room_rules
        h.rules;
  options = h.options;
}

forget-IsCoherent :
    (k : Option String) (t : Tables) (c : ConfigCache)
    → IsCoherent (record { tables = t; cache = c })
    → IsCoherent (record { tables = t; cache = invalidate_room_option_rows k c })
unfolding invalidate_room_option_rows
forget-IsCoherent none t c h = record {
  rules = h.rules;
  options = Agrees-empty (list_room_bot_options_by_key t);
}
forget-IsCoherent (some k) t c h = record {
  rules = h.rules;
  options = Agrees-remove (list_room_bot_options_by_key t) k c.room_option_rows h.options;
}

reconcile-IsCoherent :
    (error : Option String) (now : ℕ) (t : Tables) (c : ConfigCache)
    → IsCoherent (record { tables = t; cache = c })
    → IsCoherent (record { tables = t; cache = reconcile t error now c })
unfolding reconcile reconcile_store
reconcile-IsCoherent none now t c h = record {
  rules = Agrees-update (stored_rule t) c.room_rules c.room_rules h.rules;
  options =
      Agrees-update (list_room_bot_options_by_key t) c.room_option_rows c.room_option_rows
        h.options;
}
reconcile-IsCoherent (some error) now t c h = record { rules = h.rules; options = h.options }

call-IsCoherent : (c : Call) (s : Configuration) → IsCoherent s → IsCoherent (call c s)
unfolding call invalidate_room_rule upsert_room_bot_options
call-IsCoherent (reads_rule k) s h = get_room_rule-IsCoherent k s.tables s.cache h
call-IsCoherent (reads_options k) s h = get_options-IsCoherent k s.tables s.cache h
call-IsCoherent (forgets_rule k) s h = record {
  rules = Agrees-remove (stored_rule s.tables) k s.cache.room_rules h.rules;
  options = h.options;
}
call-IsCoherent (forgets_options k) s h = forget-IsCoherent k s.tables s.cache h
call-IsCoherent (posts rule) s h = post-IsCoherent rule s h
call-IsCoherent (upserts row) s h = set_room_option_row-IsCoherent row s.tables s.cache h
call-IsCoherent (reconciles error now) s h = reconcile-IsCoherent error now s.tables s.cache h

call_all-IsCoherent :
    (cs : List Call) (s : Configuration) → IsCoherent s → IsCoherent (call_all cs s)
unfolding call_all
call_all-IsCoherent [] s h = h
call_all-IsCoherent (c ∷ cs) s h = call_all-IsCoherent cs (call c s) (call-IsCoherent c s h)

pub get_room_rule-Agrees :
    (k : String) (t : Tables) (c : ConfigCache)
    → Agrees (stored_rule t) c.room_rules
    → (get_room_rule t k c).1 ≡ stored_rule t k
unfolding get_room_rule cached_rule
get_room_rule-Agrees k t c h = elim (Option-cases (lookup k c.room_rules)) [
  | inl e ↦ rw (e, get_room_rule) refl
  | inr (v, e) ↦ rw (e, get_room_rule) (h k v e)
]

pub get_options-Agrees :
    (k : String) (t : Tables) (c : ConfigCache)
    → Agrees (list_room_bot_options_by_key t) c.room_option_rows
    → (get_room_option_rows_by_key t k c).1 ≡ list_room_bot_options_by_key t k
unfolding get_room_option_rows_by_key
get_options-Agrees k t c h = elim (Option-cases (lookup k c.room_option_rows)) [
  | inl e ↦ rw (e, get_room_option_rows_by_key) refl
  | inr (v, e) ↦ rw (e, get_room_option_rows_by_key) (h k v e)
]

-- From an empty cache in front of any tables, after any sequence of complete reads, writes, invalidations and
-- reconciliations, also failed ones: the rule and the options that the cache answers for a room are those that
-- the tables have.
pub call_all-init :
    (t : Tables) (cs : List Call) (k : String)
    → let s = call_all cs (record { tables = t; cache = init }) in
      ((get_room_rule s.tables k s.cache).1 ≡ stored_rule s.tables k)
      × ((get_room_option_rows_by_key s.tables k s.cache).1
          ≡ list_room_bot_options_by_key s.tables k)
call_all-init t cs k =
    let start : Configuration = record { tables = t; cache = init } in
    let h = call_all-IsCoherent cs start (record {
      rules = Agrees-empty (stored_rule t);
      options = Agrees-empty (list_room_bot_options_by_key t);
    }) in
    let s = call_all cs start in
    (
      get_room_rule-Agrees k s.tables s.cache h.rules,
      get_options-Agrees k s.tables s.cache h.options,
    )
