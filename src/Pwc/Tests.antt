-- ===== src/Pwc/Tests.antt =====
-- Runs of pwc.c's parts, and its theorems at concrete inputs.
use xtest.Base.{ℕ, ◌≤◌, ◌≡◌, refl, [], ◌∷◌, map, length, take, true, done, arith}
use xtest.Pwc.Lines.{File, blank, after_newline, lines_loop, lines, newlines, lines_lem}
use xtest.Pwc.Ring.{store, publish, take_front, acknowledge}
use xtest.Pwc.System.{
  System, PushStep, MainStep, IoStep, Reach, here, next, main_step, io_step, count,
}
use xtest.Pwc.System.Order.{printed_lem}

-- "a\nb\n"
abbrev two_lines : File
two_lines = record { path = 47 ∷ 97 ∷ []; fd = 4; mapping = 97 ∷ 10 ∷ 98 ∷ 10 ∷ []; lines = 0 }

lines_runs : lines two_lines ≡ done 2
unfolding lines lines_loop after_newline
lines_runs = refl

two_lines_counted : lines two_lines ≡ done (newlines (97 ∷ 10 ∷ 98 ∷ 10 ∷ []))
two_lines_counted = lines_lem two_lines

-- One file is pushed, and the program ends.
abbrev one_file : (s : System) × Reach s
unfolding store publish take_front acknowledge
one_file =
    let r0 = next here (main_step (MainStep.visit two_lines)) in
    let r1 = next r0 (main_step (MainStep.push (PushStep.admit two_lines refl))) in
    let r2 = next r1 (main_step (MainStep.push (PushStep.fill two_lines))) in
    let r3 = next r2 (main_step (MainStep.push_end two_lines)) in
    let r4 = next r3 (main_step (MainStep.few (omega arith))) in
    let r5 = next r4 (main_step MainStep.leave) in
    let r6 = next r5 (io_step IoStep.poll) in
    let r7 = next r6 (io_step (IoStep.enter true refl)) in
    let r8 = next r7 (io_step (IoStep.count_item true refl)) in
    let r9 = next r8 (io_step (IoStep.wpush true (PushStep.admit _ refl))) in
    let r10 = next r9 (io_step (IoStep.wpush true (PushStep.fill _))) in
    let r11 = next r10 (io_step (IoStep.wpush_end true _)) in
    let r12 = next r11 (io_step (IoStep.empty_now true refl)) in
    let r13 = next r12 (io_step IoStep.ack_exit) in
    let r14 = next r13 (main_step (MainStep.join refl)) in
    let r15 = next r14 (main_step (MainStep.print_last refl)) in
    let r16 = next r15 (main_step (MainStep.leave_last refl)) in (_, r16)

-- All that it prints is a blank entry.
one_file_prints : one_file.0.finished.taken ≡ blank ∷ []
unfolding one_file store publish take_front acknowledge lines lines_loop after_newline
one_file_prints = refl

printed_lem_example :
    (n : ℕ) × (n ≤ length one_file.0.work.published)
    × (one_file.0.finished.taken ≡ take n (blank ∷ blank ∷ map count one_file.0.work.published))
printed_lem_example = printed_lem one_file.1
