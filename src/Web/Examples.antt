-- ===== src/Web/Examples.antt =====
-- A file of a thousand bytes, and an application without migrations.
use kumacore.Prelude.{ℕ, pos, false, none, some, [], ◌≡◌, ◌↔◌, refl, arith}
use kumacore.Prelude.Text.{str}
use kumacore.Migrate.Types.{Source}
use kumacore.Migrate.Plan.{Database, no_read_faults}
use kumacore.Web.{FileInfo, ready}
use kumacore.Web.Tags.{entity_tag-injective}
use kumacore.Web.Ready.{IsReady, ready_iff}

abbrev some_file : FileInfo
some_file = record {
  name = str "app.css";
  modified = pos 1700000000000000000;
  size = 1000;
  is_dir = false;
}

entity_tag-injective_example :
    (◌≡◌ {A = ℕ} 1700000000000000000 1700000000000000000) × (some_file.size ≡ some_file.size)
entity_tag-injective_example =
    entity_tag-injective some_file some_file 1700000000000000000 1700000000000000000 refl refl
      (omega arith, omega arith) (omega arith, omega arith) (omega arith) (omega arith) refl

abbrev no_source : Source
no_source = record {
  backend = str "sqlite";
  file_system = some (λ directory. some []);
  directory = str "sqlite/app";
}

abbrev empty_database : Database ℕ
empty_database = record { tracking = none; content = 0 }

ready_iff_example :
    (((ready
          (λ text. text)
          false
          no_read_faults
          (some (str "sqlite"))
          no_source
          empty_database).code
        ≡ 200)
      ↔ IsReady (λ text. text) false no_read_faults (some (str "sqlite")) no_source empty_database)
    × (((ready
            (λ text. text)
            false
            no_read_faults
            (some (str "sqlite"))
            no_source
            empty_database).code
          ≡ 503)
        ↔ (IsReady
              (λ text. text)
              false
              no_read_faults
              (some (str "sqlite"))
              no_source
              empty_database
            → ⊥))
ready_iff_example =
    ready_iff (λ text. text) false no_read_faults (some (str "sqlite")) no_source empty_database
