-- ===== src/Tests/Listing.antt =====
-- A server whose backup directory holds the backups of a database `old`, of `shop`'s and of users.
use kubebird.Prelude.{◌≡◌, refl, none, List, [], ◌∷◌}
use kubebird.Prelude.Text.{sort, fields, has_suffix, contains, trim_suffix}
use kubebird.Kube.Calls.{Call, Answer, Reply, done, Event, Env, exec}
use kubebird.Kube.Action.{State, ok, ◌>>=◌, current, ask, pure, wrap}
use kubebird.Databases.{orphaned_backups, exec_in_pod}
use kubebird.Databases.Orphaned.{Reports, orphaned_backups-Reports}
use kubebird.Tests.Server.{server, answer, start}

abbrev listing : List Event → (c : Call) → Reply (Answer c)
listing log (exec pod command stdin) =
    done (record {
      stdout = "security4.fbk\nzoo.fbk\nold.fbk\nnotes.txt\n";
      stderr = "";
      error = none;
    })
listing log c = answer log c

abbrev listing_server : Env
listing_server = record server { reply = listing }

abbrev listed : State
listed = (orphaned_backups "shop-0" listing_server start).1

listed_run :
    orphaned_backups "shop-0" listing_server start ≡ (ok ("old.fdb" ∷ "zoo.fdb" ∷ []), listed)
unfolding orphaned_backups exec_in_pod wrap current ask pure ◌>>=◌ sort fields has_suffix contains
    trim_suffix
listed_run = refl

orphaned_backups-Reports_example :
    Reports start.instance [] "shop-0" ("old.fdb" ∷ "zoo.fdb" ∷ []) listed
orphaned_backups-Reports_example =
    orphaned_backups-Reports listing_server "shop-0" start listed ("old.fdb" ∷ "zoo.fdb" ∷ [])
      listed_run
