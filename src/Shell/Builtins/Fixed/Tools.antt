-- ===== src/Shell/Builtins/Fixed/Tools.antt =====
-- The archivers, editors, languages and tools.
use mira_os.Base.{codes}
use mira_os.Shell.Exec.{Handler}
use mira_os.Shell.Builtins.Fixed.{refuse}

unfoldable pub builtin_tar : Handler
unfolding refuse
builtin_tar env cmd = refuse (codes "tar: unsupported in this build") env cmd

unfoldable pub builtin_gzip : Handler
unfolding refuse
builtin_gzip env cmd = refuse (codes "gzip: unsupported in this build") env cmd

unfoldable pub builtin_gunzip : Handler
unfolding refuse
builtin_gunzip env cmd = refuse (codes "gunzip: unsupported in this build") env cmd

unfoldable pub builtin_bzip2 : Handler
unfolding refuse
builtin_bzip2 env cmd = refuse (codes "bzip2: unsupported in this build") env cmd

unfoldable pub builtin_xz : Handler
unfolding refuse
builtin_xz env cmd = refuse (codes "xz: unsupported in this build") env cmd

unfoldable pub builtin_zip : Handler
unfolding refuse
builtin_zip env cmd = refuse (codes "zip: unsupported in this build") env cmd

unfoldable pub builtin_unzip : Handler
unfolding refuse
builtin_unzip env cmd = refuse (codes "unzip: unsupported in this build") env cmd

unfoldable pub builtin_vi : Handler
unfolding refuse
builtin_vi env cmd = refuse (codes "vi: unsupported in this build") env cmd

unfoldable pub builtin_nano : Handler
unfolding refuse
builtin_nano env cmd = refuse (codes "nano: unsupported in this build") env cmd

unfoldable pub builtin_emacs : Handler
unfolding refuse
builtin_emacs env cmd = refuse (codes "emacs: unsupported in this build") env cmd

unfoldable pub builtin_vim : Handler
unfolding refuse
builtin_vim env cmd = refuse (codes "vim: unsupported in this build") env cmd

unfoldable pub builtin_gcc : Handler
unfolding refuse
builtin_gcc env cmd = refuse (codes "gcc: unsupported in this build") env cmd

unfoldable pub builtin_make : Handler
unfolding refuse
builtin_make env cmd = refuse (codes "make: unsupported in this build") env cmd

unfoldable pub builtin_git : Handler
unfolding refuse
builtin_git env cmd = refuse (codes "git: unsupported in this build") env cmd

unfoldable pub builtin_python : Handler
unfolding refuse
builtin_python env cmd = refuse (codes "python: unsupported in this build") env cmd

unfoldable pub builtin_perl : Handler
unfolding refuse
builtin_perl env cmd = refuse (codes "perl: unsupported in this build") env cmd

unfoldable pub builtin_ruby : Handler
unfolding refuse
builtin_ruby env cmd = refuse (codes "ruby: unsupported in this build") env cmd

unfoldable pub builtin_node : Handler
unfolding refuse
builtin_node env cmd = refuse (codes "node: unsupported in this build") env cmd

unfoldable pub builtin_rustc : Handler
unfolding refuse
builtin_rustc env cmd = refuse (codes "rustc: unsupported in this build") env cmd

unfoldable pub builtin_go : Handler
unfolding refuse
builtin_go env cmd = refuse (codes "go: unsupported in this build") env cmd

unfoldable pub builtin_zig : Handler
unfolding refuse
builtin_zig env cmd = refuse (codes "zig: unsupported in this build") env cmd

unfoldable pub builtin_docker : Handler
unfolding refuse
builtin_docker env cmd = refuse (codes "docker: unsupported in this build") env cmd

unfoldable pub builtin_kubectl : Handler
unfolding refuse
builtin_kubectl env cmd = refuse (codes "kubectl: unsupported in this build") env cmd

unfoldable pub builtin_helm : Handler
unfolding refuse
builtin_helm env cmd = refuse (codes "helm: unsupported in this build") env cmd

unfoldable pub builtin_terraform : Handler
unfolding refuse
builtin_terraform env cmd = refuse (codes "terraform: unsupported in this build") env cmd

unfoldable pub builtin_ansible : Handler
unfolding refuse
builtin_ansible env cmd = refuse (codes "ansible: unsupported in this build") env cmd

unfoldable pub builtin_puppet : Handler
unfolding refuse
builtin_puppet env cmd = refuse (codes "puppet: unsupported in this build") env cmd

unfoldable pub builtin_chef : Handler
unfolding refuse
builtin_chef env cmd = refuse (codes "chef: unsupported in this build") env cmd

unfoldable pub builtin_salt : Handler
unfolding refuse
builtin_salt env cmd = refuse (codes "salt: unsupported in this build") env cmd

unfoldable pub builtin_vagrant : Handler
unfolding refuse
builtin_vagrant env cmd = refuse (codes "vagrant: unsupported in this build") env cmd

unfoldable pub builtin_virtualbox : Handler
unfolding refuse
builtin_virtualbox env cmd = refuse (codes "virtualbox: unsupported in this build") env cmd

unfoldable pub builtin_qemu : Handler
unfolding refuse
builtin_qemu env cmd = refuse (codes "qemu: unsupported in this build") env cmd

unfoldable pub builtin_vmware : Handler
unfolding refuse
builtin_vmware env cmd = refuse (codes "vmware: unsupported in this build") env cmd

unfoldable pub builtin_parallel : Handler
unfolding refuse
builtin_parallel env cmd = refuse (codes "parallel: unsupported in this build") env cmd

unfoldable pub builtin_strace : Handler
unfolding refuse
builtin_strace env cmd = refuse (codes "strace: unsupported in this build") env cmd

unfoldable pub builtin_ltrace : Handler
unfolding refuse
builtin_ltrace env cmd = refuse (codes "ltrace: unsupported in this build") env cmd

unfoldable pub builtin_gdb : Handler
unfolding refuse
builtin_gdb env cmd = refuse (codes "gdb: unsupported in this build") env cmd

unfoldable pub builtin_valgrind : Handler
unfolding refuse
builtin_valgrind env cmd = refuse (codes "valgrind: unsupported in this build") env cmd

unfoldable pub builtin_perf : Handler
unfolding refuse
builtin_perf env cmd = refuse (codes "perf: unsupported in this build") env cmd

unfoldable pub builtin_screen : Handler
unfolding refuse
builtin_screen env cmd = refuse (codes "screen: unsupported in this build") env cmd

unfoldable pub builtin_tmux : Handler
unfolding refuse
builtin_tmux env cmd = refuse (codes "tmux: unsupported in this build") env cmd

unfoldable pub builtin_byobu : Handler
unfolding refuse
builtin_byobu env cmd = refuse (codes "byobu: unsupported in this build") env cmd
