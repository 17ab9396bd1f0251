-- ===== src/Ecaccess/Print.antt =====
-- The listings that `main` of ecmwf_ecaccess_perl.py prints, line by line.
use hpc_relay.Base.{Bool, not, ◌&&◌, List, [], ◌∷◌, ◌++◌, map, if◌then◌else◌}
use hpc_relay.Ecaccess.Client.{is_filled}
use hpc_relay.Ecaccess.Jobs.{Row, JobRow}
use hpc_relay.Text.{Text, codes, same}
use hpc_relay.Text.Layout.{pad}
use hpc_relay.Text.Split.{join_with}

-- row[name]; each row that is printed has the name.
unfoldable pub field : Text → Row → Text
unfolding same
field name [] = []
field name ((key, value) ∷ row) = let rest = field name row in if same key name then value else rest

-- `_print_ops`
unfoldable pub ops_lines : List Row → List Text
unfolding field pad
ops_lines [] = codes "(no operations — token may be invalid)" ∷ []
ops_lines (op ∷ ops) =
    map
      (λ row.
        pad 20 (field (codes "name") row)
        ++ (b' ' ∷ pad 8 (field (codes "duration") row)
            ++ (b' ' ∷ pad 20 (field (codes "endDate") row)
                ++ (b' ' ∷ field (codes "comment") row))))
      (op ∷ ops)

detail_line : Row → Text
unfolding field pad
detail_line q = pad 20 (field (codes "name") q) ++ (b' ' ∷ field (codes "comment") q)

counts : Row → Text
unfolding field
counts q =
    codes "INIT="
    ++ (field (codes "INIT") q
        ++ (codes ",WAIT="
            ++ (field (codes "WAIT") q
                ++ (codes ",EXEC="
                    ++ (field (codes "EXEC") q
                        ++ (codes ",DONE="
                            ++ (field (codes "DONE") q
                                ++ (codes ",STOP=" ++ field (codes "STOP") q))))))))

queue_line : Row → Text
unfolding field pad counts
queue_line q =
    pad 15 (field (codes "queueName") q)
    ++ (b' ' ∷ pad 15 (field (codes "schedulerName") q)
        ++ (b' ' ∷ field (codes "comment") q ++ (codes " (" ++ (counts q ++ codes ")"))))

-- `_print_queues`
unfoldable pub queues_lines : Bool → List Row → List Text
unfolding detail_line queue_line
queues_lines detail [] = codes "(no queues)" ∷ []
queues_lines detail (q ∷ qs) = map (if detail then detail_line else queue_line) (q ∷ qs)

-- A line that stands only where a test holds.
abbrev line_if : Bool → Text → List Text
line_if b line = if b then line ∷ [] else []

has_size : Text → Bool
unfolding is_filled same
has_size size = is_filled size && not (same size (codes "-1"))

job_detail : JobRow → List Text
unfolding field is_filled same join_with has_size
job_detail j =
    let get = λ (name : Text). field name j.fields in
    (codes "     Job-Id: " ++ get (codes "jobId"))
      ∷ line_if (is_filled (get (codes "name"))) (codes "   Job Name: " ++ get (codes "name"))
    ++ ((codes "      Queue: " ++ get (codes "queueName"))
          ∷ line_if (is_filled (get (codes "hostName")))
              (codes "       Host: " ++ get (codes "hostName"))
        ++ ((codes "   Schedule: " ++ get (codes "scheduledDate"))
              ∷ (codes " Expiration: " ++ get (codes "expirationDate"))
              ∷ (codes "  Try Count: "
                  ++ (get (codes "tryDone") ++ (b'/' ∷ get (codes "tryCount"))))
              ∷ (codes "     Status: " ++ get (codes "status"))
              ∷ elim j.event_ids [
                | [] ↦ []
                | e ∷ es ↦ (codes "  Event-Ids: " ++ join_with (codes ";") (e ∷ es)) ∷ []
              ]
            ++ (line_if
                  (same (get (codes "status")) (codes "DONE")
                    && has_size (get (codes "outputFileSize")))
                  (codes "Stdout Size: " ++ get (codes "outputFileSize"))
                ++ (line_if
                      (same (get (codes "status")) (codes "DONE")
                        && has_size (get (codes "errorFileSize")))
                      (codes "Stderr Size: " ++ get (codes "errorFileSize"))
                    ++ line_if (is_filled (get (codes "comment")))
                        (codes "    Comment: " ++ get (codes "comment"))))))

job_line : JobRow → Text
unfolding field is_filled pad join_with
job_line j =
    let get = λ (name : Text). field name j.fields in
    pad 10 (get (codes "jobId"))
    ++ (b' ' ∷ pad 10 (get (codes "queueName"))
        ++ (b' ' ∷ pad 10 (get (codes "status"))
            ++ (b' ' ∷ pad 6 (get (codes "tryDone") ++ (b'/' ∷ get (codes "tryCount")))
                ++ (b' ' ∷ pad 15 (get (codes "scheduledDate"))
                    ++ (b' ' ∷ elim j.event_ids [
                      | [] ↦ codes "[-]"
                      | e ∷ es ↦ codes "[" ++ (join_with (codes ";") (e ∷ es) ++ codes "]")
                    ]
                        ++ (if is_filled (get (codes "name"))
                            then b' ' ∷ get (codes "name")
                            else []))))))

-- `_print_jobs`
unfoldable pub jobs_lines : Bool → List JobRow → List Text
unfolding job_detail job_line
jobs_lines detail [] = codes "(no jobs)" ∷ []
jobs_lines detail (j ∷ js) = if detail then job_detail j else map job_line (j ∷ js)
