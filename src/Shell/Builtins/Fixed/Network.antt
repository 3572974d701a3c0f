-- ===== src/Shell/Builtins/Fixed/Network.antt =====
-- The commands on the network.
use mira_os.Base.{some, pos, codes}
use mira_os.Shell.Exec.{Handler}
use mira_os.Shell.Builtins.{draw}
use mira_os.Shell.Builtins.Fixed.{refuse}

unfoldable pub builtin_ssh : Handler
unfolding refuse
builtin_ssh env cmd = refuse (codes "ssh: network not available") env cmd

unfoldable pub builtin_scp : Handler
unfolding refuse
builtin_scp env cmd = refuse (codes "scp: network not available") env cmd

unfoldable pub builtin_wget : Handler
unfolding refuse
builtin_wget env cmd = refuse (codes "wget: network not available") env cmd

unfoldable pub builtin_curl : Handler
unfolding refuse
builtin_curl env cmd = refuse (codes "curl: network not available") env cmd

unfoldable pub builtin_ping : Handler
unfolding refuse
builtin_ping env cmd = refuse (codes "ping: network not available") env cmd

unfoldable pub builtin_ifconfig : Handler
builtin_ifconfig env cmd =
    some (pos 0, draw (codes "eth0: flags=4163<UP,BROADCAST,RUNNING,MULTICAST>\n") env)

unfoldable pub builtin_route : Handler
unfolding refuse
builtin_route env cmd = refuse (codes "route: unsupported in this build") env cmd

unfoldable pub builtin_netstat : Handler
unfolding refuse
builtin_netstat env cmd = refuse (codes "netstat: unsupported in this build") env cmd

unfoldable pub builtin_ss : Handler
unfolding refuse
builtin_ss env cmd = refuse (codes "ss: unsupported in this build") env cmd

unfoldable pub builtin_iptables : Handler
unfolding refuse
builtin_iptables env cmd = refuse (codes "iptables: unsupported in this build") env cmd

unfoldable pub builtin_brctl : Handler
unfolding refuse
builtin_brctl env cmd = refuse (codes "brctl: unsupported in this build") env cmd

unfoldable pub builtin_ip : Handler
unfolding refuse
builtin_ip env cmd = refuse (codes "ip: unsupported in this build") env cmd

unfoldable pub builtin_ifup : Handler
unfolding refuse
builtin_ifup env cmd = refuse (codes "ifup: unsupported in this build") env cmd

unfoldable pub builtin_ifdown : Handler
unfolding refuse
builtin_ifdown env cmd = refuse (codes "ifdown: unsupported in this build") env cmd

unfoldable pub builtin_host : Handler
unfolding refuse
builtin_host env cmd = refuse (codes "host: unsupported in this build") env cmd

unfoldable pub builtin_dig : Handler
unfolding refuse
builtin_dig env cmd = refuse (codes "dig: unsupported in this build") env cmd

unfoldable pub builtin_nslookup : Handler
unfolding refuse
builtin_nslookup env cmd = refuse (codes "nslookup: unsupported in this build") env cmd

unfoldable pub builtin_traceroute : Handler
unfolding refuse
builtin_traceroute env cmd = refuse (codes "traceroute: unsupported in this build") env cmd

unfoldable pub builtin_mtr : Handler
unfolding refuse
builtin_mtr env cmd = refuse (codes "mtr: unsupported in this build") env cmd

unfoldable pub builtin_tcpdump : Handler
unfolding refuse
builtin_tcpdump env cmd = refuse (codes "tcpdump: unsupported in this build") env cmd

unfoldable pub builtin_wireshark : Handler
unfolding refuse
builtin_wireshark env cmd = refuse (codes "wireshark: unsupported in this build") env cmd

unfoldable pub builtin_tshark : Handler
unfolding refuse
builtin_tshark env cmd = refuse (codes "tshark: unsupported in this build") env cmd

unfoldable pub builtin_nmap : Handler
unfolding refuse
builtin_nmap env cmd = refuse (codes "nmap: unsupported in this build") env cmd

unfoldable pub builtin_netcat : Handler
unfolding refuse
builtin_netcat env cmd = refuse (codes "netcat: unsupported in this build") env cmd

unfoldable pub builtin_socat : Handler
unfolding refuse
builtin_socat env cmd = refuse (codes "socat: unsupported in this build") env cmd
