-- ===== src/Shell/Builtins/Fixed/Texts.antt =====
-- The commands on texts and files.
use mira_os.Base.{codes}
use mira_os.Shell.Exec.{Handler}
use mira_os.Shell.Builtins.Fixed.{refuse}

unfoldable pub builtin_head : Handler
unfolding refuse
builtin_head env cmd = refuse (codes "head: unsupported in this build") env cmd

unfoldable pub builtin_tail : Handler
unfolding refuse
builtin_tail env cmd = refuse (codes "tail: unsupported in this build") env cmd

unfoldable pub builtin_wc : Handler
unfolding refuse
builtin_wc env cmd = refuse (codes "wc: unsupported in this build") env cmd

unfoldable pub builtin_grep : Handler
unfolding refuse
builtin_grep env cmd = refuse (codes "grep: unsupported in this build") env cmd

unfoldable pub builtin_sed : Handler
unfolding refuse
builtin_sed env cmd = refuse (codes "sed: unsupported in this build") env cmd

unfoldable pub builtin_awk : Handler
unfolding refuse
builtin_awk env cmd = refuse (codes "awk: unsupported in this build") env cmd

unfoldable pub builtin_rmdir : Handler
unfolding refuse
builtin_rmdir env cmd = refuse (codes "rmdir: unsupported in this build") env cmd

unfoldable pub builtin_rm : Handler
unfolding refuse
builtin_rm env cmd = refuse (codes "rm: unsupported in this build") env cmd

unfoldable pub builtin_cp : Handler
unfolding refuse
builtin_cp env cmd = refuse (codes "cp: unsupported in this build") env cmd

unfoldable pub builtin_mv : Handler
unfolding refuse
builtin_mv env cmd = refuse (codes "mv: unsupported in this build") env cmd

unfoldable pub builtin_chmod : Handler
unfolding refuse
builtin_chmod env cmd = refuse (codes "chmod: unsupported in this build") env cmd

unfoldable pub builtin_chown : Handler
unfolding refuse
builtin_chown env cmd = refuse (codes "chown: unsupported in this build") env cmd

unfoldable pub builtin_xargs : Handler
unfolding refuse
builtin_xargs env cmd = refuse (codes "xargs: unsupported in this build") env cmd

unfoldable pub builtin_find : Handler
unfolding refuse
builtin_find env cmd = refuse (codes "find: unsupported in this build") env cmd

unfoldable pub builtin_sort : Handler
unfolding refuse
builtin_sort env cmd = refuse (codes "sort: unsupported in this build") env cmd

unfoldable pub builtin_uniq : Handler
unfolding refuse
builtin_uniq env cmd = refuse (codes "uniq: unsupported in this build") env cmd

unfoldable pub builtin_tr : Handler
unfolding refuse
builtin_tr env cmd = refuse (codes "tr: unsupported in this build") env cmd

unfoldable pub builtin_cut : Handler
unfolding refuse
builtin_cut env cmd = refuse (codes "cut: unsupported in this build") env cmd

unfoldable pub builtin_paste : Handler
unfolding refuse
builtin_paste env cmd = refuse (codes "paste: unsupported in this build") env cmd

unfoldable pub builtin_join : Handler
unfolding refuse
builtin_join env cmd = refuse (codes "join: unsupported in this build") env cmd

unfoldable pub builtin_comm : Handler
unfolding refuse
builtin_comm env cmd = refuse (codes "comm: unsupported in this build") env cmd

unfoldable pub builtin_diff : Handler
unfolding refuse
builtin_diff env cmd = refuse (codes "diff: unsupported in this build") env cmd

unfoldable pub builtin_patch : Handler
unfolding refuse
builtin_patch env cmd = refuse (codes "patch: unsupported in this build") env cmd

unfoldable pub builtin_tee : Handler
unfolding refuse
builtin_tee env cmd = refuse (codes "tee: unsupported in this build") env cmd

unfoldable pub builtin_less : Handler
unfolding refuse
builtin_less env cmd = refuse (codes "less: unsupported in this build") env cmd

unfoldable pub builtin_more : Handler
unfolding refuse
builtin_more env cmd = refuse (codes "more: unsupported in this build") env cmd
